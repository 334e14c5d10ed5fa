-- ===== src/IrcSession/Round.antt =====
-- One round of the session delivers the messages of the text that it has.
use snowcone.Prelude.{
  ℕ, zero, suc, ◌+◌, ◌≤◌, ◌<◌, ◌≡◌, refl, ap, ◌∙◌, ◌-◌, inl, inr, none, some, Option, List, [], ◌∷◌,
  ◌++◌, arith, Bytes, length, length-append, ==_ne,
}
use snowcone.IrcMsg.{IrcMsg, IrcErrorCode, ok, throw, parse_irc_message}
use snowcone.LineBuffer.{LineBuffer, prepare, shift}
use snowcone.LineBuffer.Layout.{pending, IsValid, length-between}
use snowcone.LineBuffer.Invariant.{fill, fill_lem, shift_lem}
use snowcone.LineBuffer.Size.{length-fill, length-shift}
use snowcone.IrcSession.{
  Found, line, Event, con, msg, end, what, Outcome, waiting, threw, get_nonempty_line, dispatch,
  read_chunk, is_last,
}
use snowcone.IrcSession.Spec.{
  cut_lines, texts, parse_all, parse_all_ok, parse_all_throw, parse-cases,
}
use snowcone.IrcSession.Lines.{Finds, finds_line, finds_none, get_nonempty_line_found}

-- The messages among the events.
unfoldable pub messages : List Event → List IrcMsg
messages [] = []
messages (con f ∷ es) = messages es
messages (msg m redraw ∷ es) = m ∷ messages es
messages (end error ∷ es) = messages es

pub messages-append : (es fs : List Event) → messages (es ++ fs) ≡ messages es ++ messages fs
unfolding messages
messages-append [] fs = refl
messages-append (con f ∷ es) fs = messages-append es fs
messages-append (msg m redraw ∷ es) fs = ap (λ t. m ∷ t) (messages-append es fs)
messages-append (end error ∷ es) fs = messages-append es fs

-- A buffer of `size` bytes with `p` at its front.
pub record Waits (size : ℕ) (p : Bytes) (b : LineBuffer) : Type 0 where
  pub valid : IsValid b
  pub sized : length b.buffer ≡ size
  pub front : b.start ≡ 0
  pub left : pending b ≡ p

-- How a round ends: it waits with `rest` pending, or it throws the first error.
abbrev pub Ends : ℕ → Bytes → Option IrcErrorCode → Outcome → Type 0
Ends size rest none outcome = (b : LineBuffer) × (outcome ≡ waiting b) × Waits size rest b
Ends size rest (some e) outcome = outcome ≡ threw (what e)

-- The messages of a round, and its end.
abbrev pub Delivers : ℕ → List Bytes → Bytes → List Event × Outcome → Type 0
Delivers size ts rest result =
    (messages result.0 ≡ (parse_all ts).0) × Ends size rest (parse_all ts).1 result.1

dispatch_ok :
    (fuel : ℕ) (t : Bytes) (b : LineBuffer) (m : IrcMsg)
    → parse_irc_message (some t) ≡ ok m
    → let next = get_nonempty_line b in
      dispatch (suc fuel) (line t b)
      ≡ (msg m (is_last next) ∷ (dispatch fuel next).0, (dispatch fuel next).1)
unfolding dispatch
dispatch_ok fuel t b m e = rw (e, dispatch)

dispatch_throw :
    (fuel : ℕ) (t : Bytes) (b : LineBuffer) (e : IrcErrorCode)
    → parse_irc_message (some t) ≡ throw e
    → dispatch (suc fuel) (line t b) ≡ ([], threw (what e))
unfolding dispatch
dispatch_throw fuel t b e is_throw = rw (is_throw, dispatch)

dispatch-Delivers :
    (size fuel : ℕ) (p : Bytes) (f : Found)
    → Finds size p f
    → length p ≤ fuel
    → Delivers size (texts (cut_lines p).0) (cut_lines p).1 (dispatch fuel f)
unfolding messages
dispatch-Delivers size fuel p f (finds_none b v same ts rest) h =
    let (valid, left, front) = shift_lem b v in
    let waits : Waits size (pending b) (shift b) = record {
      valid = valid;
      sized = length-shift b v ∙ same;
      front = front;
      left = left;
    } in
    rw (ts, rest) (unfold dispatch parse_all in (refl, (shift b, refl, waits)))
dispatch-Delivers size zero p f (finds_line t b v same given ts rest less) h = absurd (omega arith)
dispatch-Delivers size (suc fuel) p f (finds_line t b v same given ts rest less) h =
    let next : Found = get_nonempty_line b in
    let ih =
      dispatch-Delivers size fuel (pending b) next
        (get_nonempty_line_found size (pending b) b v same refl) (omega arith) in
    rw (ts, rest)
      (elim (parse-cases t) [
        | inl (m, is_ok) ↦
            rw (dispatch_ok fuel t b m is_ok, parse_all_ok t _ m is_ok) (ap (λ r. m ∷ r) ih.0, ih.1)
        | inr (e, is_throw) ↦
            rw (dispatch_throw fuel t b e is_throw, parse_all_throw t _ e is_throw) (refl, refl)
      ])

pub read_chunk-Delivers :
    (size : ℕ) (left bytes : Bytes) (b : LineBuffer)
    → Waits size left b
    → length left < size
    → length left + length bytes ≤ size
    → Delivers size
        (texts (cut_lines (left ++ bytes)).0)
        (cut_lines (left ++ bytes)).1
        (read_chunk b bytes)
unfolding read_chunk prepare
read_chunk-Delivers size left bytes b w h k =
    let used : length (pending b) ≡ b.finish - b.start =
      length-between b.buffer b.start b.finish (omega (arith, w.valid)) w.valid.in_buffer in
    let space : length b.buffer - b.finish ≡ size - length left =
      omega (arith, used, ap length w.left, w.sized, w.front) in
    let room : length bytes ≤ length b.buffer - b.finish = omega arith in
    let (valid, held) = fill_lem b bytes w.valid room in
    let same : length (fill b bytes).buffer ≡ size = length-fill b bytes w.valid room ∙ w.sized in
    rw (==_ne (length b.buffer - b.finish) 0 (omega arith)) (
      dispatch-Delivers size (suc (length (fill b bytes).buffer)) (left ++ bytes) _
        (get_nonempty_line_found size (left ++ bytes) (fill b bytes) valid same
          (rw held (rw w.left)))
        (omega (arith, same, length-append left bytes)))
