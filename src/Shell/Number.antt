-- ===== src/Shell/Number.antt =====
-- Assignment3/wonderShell/wonderShell.c: `strtol(s, &end, 10)`, for numbers in the range of a long.
use osassignments.Common.{ℕ, ◌+◌, ◌*◌, ◌-◌, Bool, ◌&&◌, ◌||◌, [], ◌∷◌, leb, ◌==◌, if◌then◌else◌}
use osassignments.Common.Int.{ℤ, pos, sub_ℕ}
use osassignments.Shell.Text.{Text}

abbrev is_digit : ℕ → Bool
is_digit c = leb b'0' c && leb c b'9'

abbrev is_space : ℕ → Bool
is_space c = c == 32 || leb 9 c && leb c 13

digits : ℕ → Text → ℕ
digits acc [] = acc
digits acc (c ∷ s) = let more = digits (acc * 10 + (c - b'0')) s in if is_digit c then more else acc

signed : Text → ℤ
unfolding digits
signed [] = pos 0
signed (c ∷ s) =
    if c == b'-'
    then sub_ℕ 0 (digits 0 s)
    else if c == b'+'
    then pos (digits 0 s)
    else pos (digits 0 (c ∷ s))

unfoldable pub strtol : Text → ℤ
unfolding signed
strtol [] = pos 0
strtol (c ∷ s) = let rest = strtol s in if is_space c then rest else signed (c ∷ s)
