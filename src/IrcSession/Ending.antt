-- ===== src/IrcSession/Ending.antt =====
-- The callback's events, from the connection to the end, as the comment on `l_start_irc` states them.
use snowcone.Prelude.{ℕ, ◌≡◌, refl, ap, Option, none, some, List, [], ◌∷◌, ◌++◌, Bytes}
use snowcone.IrcMsg.{IrcErrorCode}
use snowcone.LineBuffer.{make}
use snowcone.IrcSession.{
  Event, con, end, what, Outcome, Reads, pause, failed, chunk, read_loop, Connected, fingerprint,
  refused, completion, session,
}
use snowcone.IrcSession.Spec.{cut_lines, texts, parse_all}
use snowcone.IrcSession.Round.{messages}
use snowcone.IrcSession.Stream.{Fits, Stops, Finishes, text_of, read_loop-stream}
use snowcone.IrcSession.Protocol.{AreMessages, read_loop-AreMessages}

-- The end, if the session is over: with the error of a line that does not parse, or else of the last
-- read.
abbrev pub closing : Reads → Option IrcErrorCode → List Event
closing reads (some e) = end (what e) ∷ []
closing pause none = []
closing (failed error) none = end error ∷ []
closing (chunk bytes reads) none = closing reads none

-- CON MSG* END for a session that is over, CON MSG* for one that waits, or END alone if there was no
-- connection. The messages are those of the server's lines.
abbrev pub Reports : Connected → Reads → List Event → Type 0
Reports (refused error) reads events = events ≡ end error ∷ []
Reports (fingerprint f) reads events =
    let spec = parse_all (texts (cut_lines (text_of reads)).0) in
    (ms : List Event) × AreMessages ms
    × (messages ms ≡ spec.0)
    × (events ≡ con f ∷ (ms ++ closing reads spec.1))

Stops-closing :
    (size : ℕ) (left : Bytes) (reads : Reads) (o : Outcome)
    → Stops size left reads o
    → completion o ≡ closing reads none
Stops-closing size left pause o (b, e, w) = ap completion e
Stops-closing size left (failed error) o e = ap completion e
Stops-closing size left (chunk bytes reads) o h =
    Stops-closing size (cut_lines (left ++ bytes)).1 reads o h

Finishes-closing :
    (size : ℕ) (left : Bytes) (reads : Reads) (error : Option IrcErrorCode) (o : Outcome)
    → Finishes size left reads error o
    → completion o ≡ closing reads error
Finishes-closing size left reads none o h = Stops-closing size left reads o h
Finishes-closing size left reads (some e) o h = ap completion h

-- With a buffer in which every read fits: without a connection the callback is given just the end,
-- with the error. With one it is given, in order: the connection, the messages of the complete lines
-- up to the first that does not parse, and the end just once, with the error of that line or else of
-- the last read; and no end as long as no line and no read fails.
pub session-Reports :
    (size : ℕ) (c : Connected) (reads : Reads)
    → Fits size [] reads
    → Reports c reads (session size c reads)
unfolding session
session-Reports size (refused error) reads h = refl
session-Reports size (fingerprint f) reads h =
    let (delivered, finishes) = read_loop-stream size reads h in
    let result = read_loop (make size) reads in
    (
      result.0,
      read_loop-AreMessages (make size) reads,
      delivered,
      ap (λ t. con f ∷ (result.0 ++ t)) (Finishes-closing size [] reads _ result.1 finishes),
    )
