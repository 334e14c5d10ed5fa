-- ===== src/IrcSession/Stream.antt =====
-- The session delivers the messages of the server's text, however the reads cut it.
use snowcone.Prelude.{
  ℕ, ◌+◌, ◌≤◌, ◌<◌, ◌≡◌, refl, ◌∙◌, none, some, Option, List, [], ◌++◌, append_assoc, append-nil,
  Bytes, length, length-replicate,
}
use snowcone.IrcMsg.{IrcMsg, IrcErrorCode}
use snowcone.LineBuffer.{LineBuffer, make}
use snowcone.LineBuffer.Layout.{make-IsValid}
use snowcone.IrcSession.{
  Event, what, Outcome, waiting, threw, out_of_fuel, read_chunk, Reads, pause, failed, chunk,
  read_loop,
}
use snowcone.IrcSession.Spec.{
  cut_lines, cut_lines-rest, texts, parse_all, cut_lines-append, texts-append, parse_all-append,
  parse_more,
}
use snowcone.IrcSession.Round.{messages, messages-append, Waits, Ends, read_chunk-Delivers}

-- Where the coroutine's reads fit in the buffer, given what the lines before have left.
abbrev pub Fits : ℕ → Bytes → Reads → Type 0
Fits size left pause = Unit
Fits size left (failed error) = Unit
Fits size left (chunk bytes reads) =
    (length left < size)
    × (length left + length bytes ≤ size)
    × Fits size (cut_lines (left ++ bytes)).1 reads

-- The text that the server sent.
abbrev pub text_of : Reads → Bytes
text_of pause = []
text_of (failed error) = []
text_of (chunk bytes reads) = bytes ++ text_of reads

pub read_loop_waiting :
    (b : LineBuffer) (bytes : Bytes) (reads : Reads) (b' : LineBuffer)
    → (read_chunk b bytes).1 ≡ waiting b'
    → read_loop b (chunk bytes reads)
      ≡ ((read_chunk b bytes).0 ++ (read_loop b' reads).0, (read_loop b' reads).1)
read_loop_waiting b bytes reads b' e = unfold read_loop in rw (e, read_loop)

pub read_loop_threw :
    (b : LineBuffer) (bytes : Bytes) (reads : Reads) (error : Bytes)
    → (read_chunk b bytes).1 ≡ threw error
    → read_loop b (chunk bytes reads) ≡ ((read_chunk b bytes).0, threw error)
read_loop_threw b bytes reads error e = unfold read_loop in rw (e, read_loop)

pub read_loop_out_of_fuel :
    (b : LineBuffer) (bytes : Bytes) (reads : Reads)
    → (read_chunk b bytes).1 ≡ out_of_fuel
    → read_loop b (chunk bytes reads) ≡ ((read_chunk b bytes).0, out_of_fuel)
read_loop_out_of_fuel b bytes reads e = unfold read_loop in rw (e, read_loop)

make-Waits : (size : ℕ) → Waits size [] (make size)
unfolding make
make-Waits size = record {
  valid = make-IsValid size;
  sized = length-replicate size 0;
  front = refl;
  left = refl;
}

-- How the loop ends if every text parses: as its last read does.
abbrev pub Stops : ℕ → Bytes → Reads → Outcome → Type 0
Stops size left pause outcome = (b : LineBuffer) × (outcome ≡ waiting b) × Waits size left b
Stops size left (failed error) outcome = outcome ≡ threw error
Stops size left (chunk bytes reads) outcome = Stops size (cut_lines (left ++ bytes)).1 reads outcome

abbrev pub Finishes : ℕ → Bytes → Reads → Option IrcErrorCode → Outcome → Type 0
Finishes size left reads none outcome = Stops size left reads outcome
Finishes size left reads (some e) outcome = outcome ≡ threw (what e)

abbrev Reaches :
    ℕ → Bytes → Reads → List IrcMsg × Option IrcErrorCode → List Event × Outcome → Type 0
Reaches size left reads spec result =
    (messages result.0 ≡ spec.0) × Finishes size left reads spec.1 result.1

finish_later :
    (size : ℕ) (left bytes : Bytes) (reads : Reads) (e : Option IrcErrorCode) (outcome : Outcome)
    → Finishes size (cut_lines (left ++ bytes)).1 reads e outcome
    → Finishes size left (chunk bytes reads) e outcome
finish_later size left bytes reads none outcome h = h
finish_later size left bytes reads (some e) outcome h = h

after_chunk :
    (size : ℕ) (left bytes : Bytes) (b : LineBuffer) (reads : Reads)
    (first next : List IrcMsg × Option IrcErrorCode)
    → messages (read_chunk b bytes).0 ≡ first.0
    → Ends size (cut_lines (left ++ bytes)).1 first.1 (read_chunk b bytes).1
    → ((b' : LineBuffer)
        → Waits size (cut_lines (left ++ bytes)).1 b'
        → Reaches size (cut_lines (left ++ bytes)).1 reads next (read_loop b' reads))
    → Reaches size left
        (chunk bytes reads)
        (parse_more first next)
        (read_loop b (chunk bytes reads))
after_chunk size left bytes b reads (ms, none) next given (b', waits, w) ih =
    let later = ih b' w in
    rw (read_loop_waiting b bytes reads b' waits) (
      messages-append (read_chunk b bytes).0 (read_loop b' reads).0 ∙ rw (given, later.0),
      finish_later size left bytes reads next.1 _ later.1,
    )
after_chunk size left bytes b reads (ms, some e) next given threw_it ih =
    rw (read_loop_threw b bytes reads (what e) threw_it) (given, refl)

-- One read after another: the text is read on from what is left.
read_loop-Reaches :
    (size : ℕ) (left : Bytes) (b : LineBuffer) (reads : Reads)
    → Waits size left b
    → cut_lines left ≡ ([], left)
    → Fits size left reads
    → Reaches size left reads
        (parse_all (texts (cut_lines (left ++ text_of reads)).0))
        (read_loop b reads)
read_loop-Reaches size left b pause w clear h =
    rw (append-nil left, clear) (unfold read_loop parse_all texts messages in (refl, (b, refl, w)))
read_loop-Reaches size left b (failed error) w clear h =
    rw (append-nil left, clear) (unfold read_loop parse_all texts messages in (refl, refl))
read_loop-Reaches size left b (chunk bytes reads) w clear h =
    let first = read_chunk-Delivers size left bytes b w h.0 h.1 in
    let rest : Bytes = (cut_lines (left ++ bytes)).1 in
    rw (← append_assoc left bytes (text_of reads), cut_lines-append (left ++ bytes) (text_of reads))
      (rw (texts-append _ (cut_lines (rest ++ text_of reads)).0, parse_all-append)
        (after_chunk size left bytes b reads _ _ first.0 first.1
          (λ b' w'. read_loop-Reaches size rest b' reads w' (cut_lines-rest (left ++ bytes)) h.2)))

-- With a buffer of `size` bytes in which every read fits, and however the reads cut the server's
-- text: the callback is given, in order, the messages of the text's complete lines that are not
-- blank, up to the first that does not parse. The loop then throws that line's error, and else it
-- ends as its last read does: it waits, with the text behind the last newline pending, or throws
-- the read's error.
pub read_loop-stream :
    (size : ℕ) (reads : Reads)
    → Fits size [] reads
    → let spec = parse_all (texts (cut_lines (text_of reads)).0) in
      let result = read_loop (make size) reads in
      (messages result.0 ≡ spec.0) × Finishes size [] reads spec.1 result.1
read_loop-stream size reads h =
    read_loop-Reaches size [] (make size) reads (make-Waits size) (unfold cut_lines in refl) h
