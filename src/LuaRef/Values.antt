-- ===== src/LuaRef/Values.antt =====
-- Each object refers to its value as long as it lives.
use snowcone.Prelude.{
  ℕ, ◌≡◌, ◌≢◌, refl, inl, inr, Bool, List, [], ◌∷◌, ◌++◌, All, Holds, Shuffle-Holds,
}
use snowcone.LuaRef.{
  Ref, noref, refnil, ref, Value, nil, object, Registry, find, push, Content, empty, holds, Item,
  State, Run,
}
use snowcone.LuaRef.Owned.{Agrees, key, entry_of, entries, ItemAgrees, Run-IsOwned, find-Holds}

-- What `push` should push; an object that is empty has nothing to push.
abbrev pub shown : {V : Type 0} → Content V → Value V
shown empty = nil
shown (holds v) = v

module _ {V : Type 0} where
  pushes :
      (lua : Bool) (r : Ref) (c : Content V) (registry : Registry V)
      → Agrees r c
      → ((k : ℕ) (v : V) → Holds (entry_of r c) (k, v) → find k registry ≡ object v)
      → push (record { lua = lua; ref = r }) registry ≡ shown c
  unfolding push
  pushes lua noref empty registry a h = refl
  pushes lua refnil (holds nil) registry a h = refl
  pushes lua (ref k) (holds (object v)) registry a h = h k v (inl refl)
  pushes lua noref (holds v) registry a h = absurd a
  pushes lua refnil empty registry a h = absurd a
  pushes lua refnil (holds (object v)) registry a h = absurd a
  pushes lua (ref k) empty registry a h = absurd a
  pushes lua (ref k) (holds nil) registry a h = absurd a

  Holds-append : (es fs : Registry V) (p : ℕ × V) → Holds es p → Holds (es ++ fs) p
  Holds-append [] fs p h = absurd h
  Holds-append (e ∷ es) fs p (inl q) = inl q
  Holds-append (e ∷ es) fs p (inr h) = inr (Holds-append es fs p h)

  Holds-append_right : (es fs : Registry V) (p : ℕ × V) → Holds fs p → Holds (es ++ fs) p
  Holds-append_right [] fs p h = h
  Holds-append_right (e ∷ es) fs p h = inr (Holds-append_right es fs p h)

  All-push :
      (live : List (Item V)) (registry : Registry V)
      → All ItemAgrees live
      → ((k : ℕ) (v : V) → Holds (entries live) (k, v) → find k registry ≡ object v)
      → All (λ i. push i.object registry ≡ shown i.content) live
  All-push [] registry a h = tt
  All-push (i ∷ live) registry (a, rest) h =
      let own : Registry V = entry_of i.object.ref i.content in
      (
        pushes i.object.lua i.object.ref i.content registry a
            (λ k v held. h k v (Holds-append own (entries live) (k, v) held)),
        All-push live registry rest
            (λ k v held. h k v (Holds-append_right own (entries live) (k, v) held)),
      )

-- If `luaL_ref` chooses a key that is not in use: whatever has been done with the objects, each one
-- that is alive and not empty pushes the value that it was created with, or that it was given by a
-- copy, a move or an assignment.
pub Run-push :
    {V : Type 0} (fresh : Registry V → ℕ)
    → ((registry : Registry V) → All (λ (e : ℕ × V). key e ≢ fresh registry) registry)
    → {s : State V} → Run fresh s
    → All (λ i. push i.object s.registry ≡ shown i.content) s.live
Run-push fresh is_fresh {s} run =
    let h = Run-IsOwned fresh is_fresh run in
    All-push s.live s.registry h.agree
      (λ k v held. find-Holds k v s.registry h.keys (Shuffle-Holds (k, v) h.owned held))
