-- ===== src/LuaRef/Tests.antt =====
-- A run of two objects.
use snowcone.Prelude.{ℕ, ◌+◌, ◌≤◌, ◌≡◌, ◌≢◌, true, [], ◌∷◌, All, arith, exchange}
use snowcone.LuaRef.{
  ref, LuaRef, object, Registry, create, copy, destroy, push, Content, holds, item, State, state,
  Run, here, then, creates, copies, destroys, reorders,
}
use snowcone.LuaRef.Owned.{key, IsOwned, Run-IsOwned}
use snowcone.LuaRef.Values.{shown, Run-push}

-- A number that is greater than every key.
abbrev next_key : Registry ℕ → ℕ
next_key [] = 1
next_key ((k, v) ∷ entries) = k + next_key entries

next_key_pos : (entries : Registry ℕ) → 1 ≤ next_key entries
next_key_pos [] = omega arith
next_key_pos ((k, v) ∷ entries) = omega (arith, next_key_pos entries)

keys_below :
    (entries : Registry ℕ) (n : ℕ) → next_key entries ≤ n → All (λ (e : ℕ × ℕ). key e ≢ n) entries
keys_below [] n h = tt
keys_below ((k, v) ∷ entries) n h =
    (λ e. omega (arith, next_key_pos entries), keys_below entries n (omega arith))

is_fresh : (entries : Registry ℕ) → All (λ (e : ℕ × ℕ). key e ≢ next_key entries) entries
is_fresh entries = keys_below entries (next_key entries) (omega arith)

abbrev first : LuaRef
first = record { lua = true; ref = ref 1 }

abbrev second : LuaRef
second = record { lua = true; ref = ref 2 }

-- The number 7 is referred to, the reference copied, and the first object destroyed.
abbrev copy_left : State ℕ
copy_left = state ((2, 7) ∷ []) (item second (holds (object 7)) ∷ [])

abbrev seven : Content ℕ
seven = holds (object 7)

abbrev both_entries : Registry ℕ
both_entries = (2, 7) ∷ (1, 7) ∷ []

copy_left-Run : Run next_key copy_left
unfolding create copy destroy
copy_left-Run =
    then
      (then created_copied (
        reorders both_entries (item second seven ∷ item first seven ∷ [])
          (item first seven ∷ item second seven ∷ [])
          (exchange (item second seven) (item first seven) [])))
      (destroys first seven both_entries (item second seven ∷ []))
  where
    created_copied : Run next_key (state both_entries (item second seven ∷ item first seven ∷ []))
    created_copied =
        then (then here (creates (object 7) [] [])) (copies first seven ((1, 7) ∷ []) [])

Run-IsOwned_example : IsOwned copy_left
Run-IsOwned_example = Run-IsOwned next_key is_fresh copy_left-Run

Run-push_example : All (λ i. push i.object copy_left.registry ≡ shown i.content) copy_left.live
Run-push_example = Run-push next_key is_fresh copy_left-Run
