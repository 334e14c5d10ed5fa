-- ===== src/IrcSession/Tests.antt =====
-- Runs of the session.
use snowcone.Prelude.{take, ◌≡◌, [], codes, arith}
use snowcone.LineBuffer.{LineBuffer, make, prepare, receive, commit, next_line}
use snowcone.LineBuffer.Layout.{make-IsValid}
use snowcone.LineBuffer.Invariant.{fill, fill_lem}
use snowcone.IrcSession.Stable.{buffer_after, next_line-IsValid, take-get_nonempty_line}
use snowcone.IrcSession.{get_nonempty_line, Reads, failed, chunk, read_loop, session, fingerprint}
use snowcone.IrcSession.Spec.{cut_lines, texts, parse_all}
use snowcone.IrcSession.Round.{messages}
use snowcone.IrcSession.Stream.{Finishes, text_of, read_loop-stream}
use snowcone.IrcSession.Ending.{Reports, session-Reports}

abbrev two_reads : Reads
two_reads = chunk (codes "A\r\n \nB") (chunk (codes "C x\n") (failed (codes "eof")))

read_loop-stream_example :
    let spec = parse_all (texts (cut_lines (text_of two_reads)).0) in
    let result = read_loop (make 9) two_reads in
    (messages result.0 ≡ spec.0) × Finishes 9 [] two_reads spec.1 result.1
unfolding cut_lines
read_loop-stream_example =
    read_loop-stream 9 two_reads (omega arith, omega arith, (omega arith, omega arith, tt))

session-Reports_example : Reports (fingerprint []) two_reads (session 9 (fingerprint []) two_reads)
unfolding cut_lines
session-Reports_example =
    session-Reports 9 (fingerprint []) two_reads
      (omega arith, omega arith, (omega arith, omega arith, tt))

abbrev three_lines : LineBuffer
three_lines = fill (make 8) (codes "a\n \nb\nc")

take-get_nonempty_line_example :
    let b = (next_line three_lines).1 in
    take b.start (buffer_after (get_nonempty_line b) b).buffer ≡ take b.start b.buffer
unfolding prepare make receive commit
take-get_nonempty_line_example = take-get_nonempty_line (next_line three_lines).1 (
    next_line-IsValid three_lines
      (fill_lem (make 8) (codes "a\n \nb\nc") (make-IsValid 8) (omega arith)).0)
