-- ===== src/Timer.antt =====
-- client/timer.cpp: the methods `start` and `cancel`, `l_gc`, and the handler of `async_wait`. The
-- registry has one slot for the timer. A wait that has expired has its handler queued, and neither
-- `expires_after` nor `cancel` takes a queued handler back.
pub mod Calls
mod Tests
use snowcone.Prelude.{
  ℕ, zero, suc, ◌+◌, ◌≡◌, Bool, true, false, Option, none, some, List, [], ◌∷◌, ◌++◌,
}

-- `C` is the type of the callbacks.
pub record Timer (C : Type 0) : Type 0 where
  pub slot : Option C
  -- Whether a wait is pending, and how many handlers are queued for waits that have expired.
  pub waiting : Bool
  pub queued : ℕ

-- `lua_rawgetp` of an empty slot gives `nil`, which `safecall` then calls.
pub data Called (C : Type 0) : Type 0 where
  callback : C → Called C
  nil : Called C

module _ {C : Type 0} where
  abbrev pub fetched : Option C → Called C
  fetched none = nil
  fetched (some c) = callback c

  abbrev pub create : Timer C
  create = record { slot = none; waiting = false; queued = 0 }

  -- `expires_after` aborts a pending wait, whose handler then does nothing.
  unfoldable pub start : C → Timer C → Timer C
  start c t = record t { slot = some c; waiting = true }

  unfoldable pub cancel : Timer C → Timer C
  cancel t = record t { slot = none; waiting = false }

  -- `l_gc` forgets the callback and destroys the timer, which aborts its wait.
  unfoldable pub l_gc : Timer C → Timer C
  l_gc t = record t { slot = none; waiting = false }

  -- The handler without an error: it fetches the callback, forgets it, and calls it.
  unfoldable pub on_wait : ℕ → Timer C → Timer C × Called C
  on_wait rest t = (record t { slot = none; queued = rest }, fetched t.slot)

  unfoldable pub expire : Timer C → Timer C
  expire t = record t { waiting = false; queued = suc t.queued }

  -- The program's loop runs a queued handler, if there is one.
  unfoldable pub run_queued : Timer C → Option (Timer C × Called C)
  unfolding on_wait
  run_queued t = elim t.queued [ zero ↦ none | suc rest ↦ some (on_wait rest t) ]

-- The timer, what has been started and not been called or cancelled, and the calls made.
pub record Clock (C : Type 0) : Type 0 where
  pub timer : Timer C
  pub due : Option C
  pub calls : List (Called C)

abbrev pub fresh : {C : Type 0} → Clock C
fresh = record { timer = create; due = none; calls = [] }

-- The steps, the calls of `start` and `cancel` being made only while no handler is queued.
pub data Step {C : Type 0} : Clock C → Clock C → Type 0 where
  starts :
      (c : C) (k : Clock C)
      → k.timer.queued ≡ 0
      → Step k (record k { timer = start c k.timer; due = some c })
  cancels :
      (k : Clock C) → k.timer.queued ≡ 0 → Step k (record k { timer = cancel k.timer; due = none })
  expires : (k : Clock C) → k.timer.waiting ≡ true → Step k (record k { timer = expire k.timer })
  handles :
      (rest : ℕ) (k : Clock C)
      → k.timer.queued ≡ suc rest
      → Step k (record {
        timer = (on_wait rest k.timer).0;
        due = none;
        calls = k.calls ++ (on_wait rest k.timer).1 ∷ [];
      })

pub data Run {C : Type 0} (from : Clock C) : Clock C → Type 0 where
  here : Run from from
  then : {j k : Clock C} → Run from j → Step j k → Run from k
