-- ===== src/Timer/Calls.antt =====
-- Which callback a handler calls.
use snowcone.Prelude.{
  ℕ, suc, ◌+◌, ◌≡◌, refl, sym, ap, ◌∙◌, Bool, true, false, Option, none, some, [], ◌∷◌, arith, All,
  All-append,
}
use snowcone.Timer.{
  Timer, Called, callback, nil, fetched, start, cancel, on_wait, expire, run_queued, Clock, fresh,
  Step, starts, cancels, expires, handles, Run, here, then,
}

abbrev bit : Bool → ℕ
bit true = 1
bit false = 0

module _ {C : Type 0} where
  abbrev pub IsCallback : Called C → Type 0
  IsCallback (callback c) = Unit
  IsCallback nil = ⊥

  -- How many waits are pending or have expired, by what is due.
  abbrev pub waits : Option C → ℕ
  waits none = 0
  waits (some c) = 1

  abbrev pub IsSound : Clock C → Type 0
  IsSound k =
      (k.timer.slot ≡ k.due)
      × (bit k.timer.waiting + k.timer.queued ≡ waits k.due)
      × All IsCallback k.calls

  due-some : (due : Option C) (n rest : ℕ) → n + suc rest ≡ waits due → (c : C) × (due ≡ some c)
  due-some none n rest h = absurd (omega arith)
  due-some (some c) n rest h = (c, refl)

  Step-IsSound : {j k : Clock C} → Step j k → IsSound j → IsSound k
  unfolding start cancel expire on_wait
  Step-IsSound (starts c k q) (s, w, a) = (refl, omega (arith, q), a)
  Step-IsSound (cancels k q) (s, w, a) = (refl, omega (arith, q), a)
  Step-IsSound (expires k e) (s, w, a) = (s, omega (arith, ap bit e), a)
  Step-IsSound (handles rest k q) (s, w, a) =
      let (c, is_due) =
        due-some k.due (bit k.timer.waiting) rest (ap (λ n. bit k.timer.waiting + n) (sym q) ∙ w) in
      let got : fetched k.timer.slot ≡ callback c = ap fetched (s ∙ is_due) in
      let one : bit k.timer.waiting + rest ≡ 0 = omega (arith, q, ap waits is_due) in
      (refl, one, All-append IsCallback k.calls (fetched k.timer.slot ∷ []) a (rw got tt, tt))

-- If `start` and `cancel` are called only while no handler is queued: a handler always calls the
-- callback of the last `start`, and never `nil`; and at most one wait is pending or expired, while
-- a callback is due.
pub Run-IsSound : {C : Type 0} {k : Clock C} → Run fresh k → IsSound k
Run-IsSound here = (refl, omega arith, tt)
Run-IsSound (then run step) = Step-IsSound step (Run-IsSound run)

-- The handler of an expired wait stays queued when the timer is cancelled or started: after `cancel` it
-- runs next all the same, and calls `nil`; and after `start` it runs while the new wait is
-- pending, calls the new callback at once and forgets it, so that the handler of the new wait, when
-- that has expired as well, calls `nil`.
pub run_queued-expire :
    {C : Type 0} (c : C) (t : Timer C)
    → let called_early = record t { slot = none; waiting = true } in
      (run_queued (cancel (expire t)) ≡ some (record t { slot = none; waiting = false }, nil))
      × (run_queued (start c (expire t)) ≡ some (called_early, callback c))
      × (run_queued (expire called_early) ≡ some (record t { slot = none; waiting = false }, nil))
unfolding run_queued on_wait cancel start expire
run_queued-expire c t = (refl, refl, refl)
