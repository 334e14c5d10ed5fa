-- ===== src/LineBuffer/Tests.antt =====
-- Runs of the line buffer.
use snowcone.Prelude.{◌≡◌, refl, none, [], codes, lacks-Lacks, arith}
use snowcone.LineBuffer.{LineBuffer, make, prepare, receive, commit, next_line, c_string}
use snowcone.LineBuffer.Layout.{IsValid, make-IsValid}
use snowcone.LineBuffer.Invariant.{fill, fill_lem}
use snowcone.LineBuffer.Lines.{next_line-some}

abbrev two_lines : LineBuffer
two_lines = fill (make 12) (codes "ab\r\ncd\nef")

first_line : c_string (next_line two_lines).1.buffer 0 ≡ codes "ab"
unfolding next_line c_string make receive commit
first_line = refl

third_call : (next_line (next_line (next_line two_lines).1).1).0 ≡ none
unfolding next_line make receive commit
third_call = refl

abbrev partial : LineBuffer
partial = fill (make 8) (codes "ab")

partial-IsValid : IsValid partial
partial-IsValid =
    (fill_lem (make 8) (codes "ab") (make-IsValid 8) (unfold prepare make in omega arith)).0

full-IsValid : IsValid (fill partial (codes "c\r\n"))
unfolding prepare make receive commit
full-IsValid = (fill_lem partial (codes "c\r\n") partial-IsValid (omega arith)).0

cut-IsValid : IsValid (next_line (fill partial (codes "c\r\n"))).1
unfolding prepare make receive commit
cut-IsValid =
    (next_line-some (fill partial (codes "c\r\n")) (codes "abc\r") [] full-IsValid refl
      (lacks-Lacks b'\n' (codes "abc\r") refl)).2
