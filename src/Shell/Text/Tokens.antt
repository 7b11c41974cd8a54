-- ===== src/Shell/Text/Tokens.antt =====
-- Assignment3/wonderShell/wonderShell.c: what the tokens of a line are.
use mathlib.Core.List.{flatten}
use osassignments.Common.{
  ℕ, ◌≡◌, ◌≢◌, refl, ◌∙◌, ap, sym, true, false, List, [], ◌∷◌, ◌++◌, if◌then◌else◌, append-nil,
  append_assoc, Bool-cases, inl, inr, Each, Each-append,
}
use osassignments.Shell.Text.{Text, is_delim, end_token, tokens_from, tokens}

module _ (delims : Text) where
  -- A text with its delimiters dropped.
  without_delims : Text → Text
  without_delims [] = []
  without_delims (c ∷ s) = if is_delim delims c then without_delims s else c ∷ without_delims s

  -- No character is a delimiter.
  abbrev pub IsClean : Text → Type 0
  IsClean = Each (λ c. is_delim delims c ≡ false)

  abbrev pub IsToken : Text → Type 0
  IsToken t = (t ≢ []) × IsClean t

  end_token-flatten : (t : Text) (rest : List Text) → flatten (end_token t rest) ≡ t ++ flatten rest
  unfolding end_token flatten
  end_token-flatten [] rest = refl
  end_token-flatten (c ∷ t) rest = refl

  tokens_from-flatten : (t s : Text) → flatten (tokens_from delims t s) ≡ t ++ without_delims s
  unfolding tokens_from without_delims flatten
  tokens_from-flatten t [] = end_token-flatten t []
  tokens_from-flatten t (c ∷ s) = elim (Bool-cases (is_delim delims c)) [
    | inl e ↦ rw e (end_token-flatten t _ ∙ ap (◌++◌ t) (tokens_from-flatten [] s))
    | inr e ↦
        rw e (tokens_from-flatten (t ++ c ∷ []) s ∙ append_assoc t (c ∷ []) (without_delims s))
  ]

  end_token-Each :
      (t : Text) (rest : List Text)
      → IsClean t
      → Each IsToken rest
      → Each IsToken (end_token t rest)
  unfolding end_token flatten
  end_token-Each [] rest h k = k
  end_token-Each (c ∷ t) rest h k = ((cc, h), k)

  tokens_from-Each : (t s : Text) → IsClean t → Each IsToken (tokens_from delims t s)
  unfolding tokens_from
  tokens_from-Each t [] h = end_token-Each t [] h tt
  tokens_from-Each t (c ∷ s) h = elim (Bool-cases (is_delim delims c)) [
    | inl e ↦ rw e (end_token-Each t _ h (tokens_from-Each [] s tt))
    | inr e ↦ rw e (tokens_from-Each (t ++ c ∷ []) s (Each-append _ t (c ∷ []) h (e, tt)))
  ]

  -- Every token is a text that is not empty and holds no delimiter, and the tokens in their order
  -- make up the line without its delimiters.
  tokens_lem :
      (s : Text) → Each IsToken (tokens delims s) × (flatten (tokens delims s) ≡ without_delims s)
  unfolding tokens
  tokens_lem s = (tokens_from-Each [] s tt, tokens_from-flatten [] s)

  tokens_from-clean :
      (t w s : Text) → IsClean w → tokens_from delims t (w ++ s) ≡ tokens_from delims (t ++ w) s
  unfolding tokens_from
  tokens_from-clean t [] s h = rw (append-nil t)
  tokens_from-clean t (c ∷ w) s h =
      rw (h.0, sym (append_assoc t (c ∷ []) w)) (tokens_from-clean (t ++ c ∷ []) w s h.1)

  end_token-token : (t : Text) (rest : List Text) → t ≢ [] → end_token t rest ≡ t ∷ rest
  unfolding end_token flatten
  end_token-token [] rest h = absurd (h refl)
  end_token-token (c ∷ t) rest h = refl

  tokens_from-word :
      (c : ℕ) (w s : Text)
      → is_delim delims c ≡ true
      → IsToken w
      → tokens_from delims [] (w ++ c ∷ s) ≡ w ∷ tokens_from delims [] s
  unfolding tokens_from
  tokens_from-word c w s d h = rw (tokens_from-clean [] w (c ∷ s) h.1, d) (end_token-token w _ h.0)

  tokens_from-last : (w : Text) → IsToken w → tokens_from delims [] w ≡ w ∷ []
  unfolding tokens_from
  tokens_from-last w h =
      ap (tokens_from delims []) (sym (append-nil w))
      ∙ (tokens_from-clean [] w [] h.1 ∙ end_token-token w [] h.0)

  -- The text holds the words, in their order, with delimiters between them, and perhaps in front of the
  -- first and behind the last.
  pub data Spells : Text → List Text → Type 0 where
    empty : Spells [] []
    skip :
        {s : Text} {ws : List Text} (c : ℕ)
        → is_delim delims c ≡ true
        → Spells s ws
        → Spells (c ∷ s) ws
    last : (w : Text) → IsToken w → Spells w (w ∷ [])
    word :
        {s : Text} {ws : List Text} (w : Text) (c : ℕ)
        → IsToken w
        → is_delim delims c ≡ true
        → Spells s ws
        → Spells (w ++ c ∷ s) (w ∷ ws)

  -- `strtok` gives these words.
  pub tokens-Spells : {s : Text} {ws : List Text} → Spells s ws → tokens delims s ≡ ws
  unfolding tokens tokens_from end_token
  tokens-Spells empty = refl
  tokens-Spells (skip c d h) = rw d (tokens-Spells h)
  tokens-Spells (last w k) = tokens_from-last w k
  tokens-Spells (word {s} w c k d h) = tokens_from-word c w s d k ∙ ap (◌∷◌ w) (tokens-Spells h)
