-- ===== src/Tutorial/Dup.antt =====
-- Assignment3/Tutorial_3/1_dup.c: the standard output is moved to a file between two lines.
--
-- `printf` keeps its lines in a buffer. On a terminal each line is written at once, else when main
-- returns, to what stands behind descriptor 1 by then. A write to a closed descriptor is lost.
use osassignments.Common.{◌≡◌, refl, Bool, true, false, List, [], ◌∷◌, ◌++◌, if◌then◌else◌}
use osassignments.Shell.Text.{Text, text}

-- What stands behind descriptor 1.
pub data Place : Type 0 where
  first_output : Place
  file : Place
  nowhere : Place

pub record Lines : Type 0 where
  pub stdout : Place
  pub buffer : List Text
  pub in_output : List Text
  pub in_file : List Text

unfoldable pub written_to : Place → List Text → Lines → Lines
written_to first_output lines s = record s { in_output = s.in_output ++ lines }
written_to file lines s = record s { in_file = s.in_file ++ lines }
written_to nowhere lines s = s

unfoldable pub flush : Lines → Lines
unfolding written_to
flush s = record (written_to s.stdout s.buffer s) { buffer = [] }

unfoldable pub printf : Bool → Text → Lines → Lines
unfolding flush
printf terminal line s =
    let kept = record s { buffer = s.buffer ++ line ∷ [] } in if terminal then flush kept else kept

-- `close(1)`, and `dup2(fd, 1)`, which fails where the file could not be opened.
unfoldable pub move_stdout : Bool → Lines → Lines
move_stdout opened s = record s { stdout = if opened then file else nowhere }

-- With a file name; whether the output is a terminal, and whether the file can be opened.
unfoldable pub main : Bool → Bool → Lines
unfolding printf move_stdout flush
main terminal opened =
    let start : Lines = record {
      stdout = first_output;
      buffer = [];
      in_output = [];
      in_file = [];
    } in
    let said = printf terminal (text "The first line") start in
    flush (printf terminal (text "The second line") (move_stdout opened said))

-- Only on a terminal does the first line come out in front of the move; else it goes where the
-- second one goes. Without the file what is printed behind the move is lost.
main_lines :
    (terminal opened : Bool)
    → let s = main terminal opened in
      let behind =
        if terminal
        then text "The second line" ∷ []
        else text "The first line" ∷ text "The second line" ∷ [] in
      (s.in_output ≡ (if terminal then text "The first line" ∷ [] else []))
      × (s.in_file ≡ (if opened then behind else []))
unfolding main
main_lines true true = (refl, refl)
main_lines true false = (refl, refl)
main_lines false true = (refl, refl)
main_lines false false = (refl, refl)
