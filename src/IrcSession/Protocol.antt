-- ===== src/IrcSession/Protocol.antt =====
-- The order of the callback's events.
use snowcone.Prelude.{
  ℕ, zero, suc, ◌≡◌, refl, ◌⊎◌, inl, inr, List, [], ◌∷◌, ◌++◌, Bytes, length, ◌==◌, Bool-cases,
}
use snowcone.LineBuffer.{LineBuffer, make, prepare, receive, commit}
use snowcone.IrcSession.{
  Found, line, no_line, lost, Event, con, msg, end, Outcome, waiting, threw, out_of_fuel, dispatch,
  read_chunk, get_nonempty_line, Reads, pause, failed, chunk, read_loop, Connected, fingerprint,
  refused, completion, session,
}
use snowcone.IrcSession.Spec.{parse-cases}
use snowcone.IrcSession.Stream.{read_loop_waiting, read_loop_threw, read_loop_out_of_fuel}

-- Messages alone.
abbrev pub AreMessages : List Event → Type 0
AreMessages [] = Unit
AreMessages (con f ∷ es) = ⊥
AreMessages (msg m redraw ∷ es) = AreMessages es
AreMessages (end error ∷ es) = ⊥

-- `MSG* END?`, with nothing behind the end.
abbrev pub FollowsCon : List Event → Type 0
FollowsCon [] = Unit
FollowsCon (con f ∷ es) = ⊥
FollowsCon (msg m redraw ∷ es) = FollowsCon es
FollowsCon (end error ∷ es) = es ≡ []

-- `(CON MSG*)? END`, or a beginning of it.
abbrev pub FollowsProtocol : List Event → Type 0
FollowsProtocol [] = Unit
FollowsProtocol (con f ∷ es) = FollowsCon es
FollowsProtocol (msg m redraw ∷ es) = ⊥
FollowsProtocol (end error ∷ es) = es ≡ []

AreMessages-append : (es fs : List Event) → AreMessages es → AreMessages fs → AreMessages (es ++ fs)
AreMessages-append [] fs h k = k
AreMessages-append (con f ∷ es) fs h k = elim h [ ]
AreMessages-append (msg m redraw ∷ es) fs h k = AreMessages-append es fs h k
AreMessages-append (end error ∷ es) fs h k = elim h [ ]

FollowsCon-append : (es fs : List Event) → AreMessages es → FollowsCon fs → FollowsCon (es ++ fs)
FollowsCon-append [] fs h k = k
FollowsCon-append (con f ∷ es) fs h k = elim h [ ]
FollowsCon-append (msg m redraw ∷ es) fs h k = FollowsCon-append es fs h k
FollowsCon-append (end error ∷ es) fs h k = elim h [ ]

dispatch-AreMessages : (fuel : ℕ) (f : Found) → AreMessages (dispatch fuel f).0
unfolding dispatch
dispatch-AreMessages zero (line t b) = tt
dispatch-AreMessages zero (no_line b) = tt
dispatch-AreMessages zero lost = tt
dispatch-AreMessages (suc fuel) (no_line b) = tt
dispatch-AreMessages (suc fuel) lost = tt
dispatch-AreMessages (suc fuel) (line t b) = elim (parse-cases t) [
  | inl (m, e) ↦ rw (e, dispatch) (dispatch-AreMessages fuel (get_nonempty_line b))
  | inr (x, e) ↦ rw (e, dispatch) tt
]

read_chunk_cases :
    (b : LineBuffer) (bytes : Bytes)
    → (read_chunk b bytes).0 ≡ []
      ⊎ ((fuel : ℕ) × (f : Found) × (read_chunk b bytes).0 ≡ (dispatch fuel f).0)
unfolding read_chunk
read_chunk_cases b bytes =
    let filled : LineBuffer = commit (receive b bytes) (length bytes) in
    elim (Bool-cases ((prepare b).1 == 0)) [
      | inl e ↦ inl (rw (e, read_chunk) refl)
      | inr e ↦ inr (suc (length filled.buffer), get_nonempty_line filled, rw (e, read_chunk) refl)
    ]

read_chunk-AreMessages : (b : LineBuffer) (bytes : Bytes) → AreMessages (read_chunk b bytes).0
read_chunk-AreMessages b bytes = elim (read_chunk_cases b bytes) [
  | inl e ↦ rw e tt
  | inr (fuel, f, e) ↦ rw e (dispatch-AreMessages fuel f)
]

pub read_loop-AreMessages : (b : LineBuffer) (reads : Reads) → AreMessages (read_loop b reads).0
read_loop-AreMessages b pause = unfold read_loop in tt
read_loop-AreMessages b (failed error) = unfold read_loop in tt
read_loop-AreMessages b (chunk bytes reads) =
    after (λ b'. read_loop-AreMessages b' reads) (read_chunk b bytes).1 refl
  where
    first : AreMessages (read_chunk b bytes).0
    first = read_chunk-AreMessages b bytes

    after :
        ((b' : LineBuffer) → AreMessages (read_loop b' reads).0)
        → (o : Outcome) → (read_chunk b bytes).1 ≡ o
        → AreMessages (read_loop b (chunk bytes reads)).0
    after ih (waiting b') e =
        rw (read_loop_waiting b bytes reads b' e)
          (AreMessages-append (read_chunk b bytes).0 (read_loop b' reads).0 first (ih b'))
    after ih (threw error) e = rw (read_loop_threw b bytes reads error e) first
    after ih out_of_fuel e = rw (read_loop_out_of_fuel b bytes reads e) first

-- The events are `(CON MSG*)? END`, or a beginning of it, also where a read does not fit in the
-- buffer: nothing comes behind the end.
pub session-FollowsProtocol :
    (size : ℕ) (c : Connected) (reads : Reads) → FollowsProtocol (session size c reads)
unfolding session
session-FollowsProtocol size (refused error) reads = refl
session-FollowsProtocol size (fingerprint f) reads =
    FollowsCon-append (read_loop (make size) reads).0 (completion (read_loop (make size) reads).1)
      (read_loop-AreMessages (make size) reads) (completed (read_loop (make size) reads).1)
  where
    completed : (o : Outcome) → FollowsCon (completion o)
    completed (waiting b) = tt
    completed (threw error) = refl
    completed out_of_fuel = tt
