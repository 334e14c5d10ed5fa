-- ===== src/LuaRef/Owned.antt =====
-- The live objects own the entries of the registry, each object its own.
use snowcone.Prelude.{
  ℕ, ◌≡◌, ◌≢◌, refl, sym, ap, ◌∙◌, inl, inr, Bool, Bool-cases, false, List, [], ◌∷◌, ◌++◌, All,
  ◌==◌, ==_self, ==_ne, ==_iff, Shuffle, nothing, keep, exchange, both, Shuffle_self,
  Shuffle-append, Shuffle_parts, Shuffle-All, Shuffle-Holds, Shuffle-Distinct, Shuffle_back, Holds,
  Distinct,
}
use mathlib.Core.Path.{subst}
use snowcone.LuaRef.{
  Ref, noref, refnil, ref, LuaRef, Value, nil, object, Registry, find, remove, create, copy,
  destroy, assign, Content, empty, holds, Item, item, State, state, Step, creates, copies, moves,
  swaps, assigns, destroys, reorders, Run, here, then,
}

abbrev pub key : {V : Type 0} → ℕ × V → ℕ
key (k, v) = k

-- The entry that an object should own.
abbrev pub entry_of : {V : Type 0} → Ref → Content V → Registry V
entry_of (ref k) (holds (object v)) = (k, v) ∷ []
entry_of _ _ = []

abbrev pub entries : {V : Type 0} → List (Item V) → Registry V
entries [] = []
entries (i ∷ live) = entry_of i.object.ref i.content ++ entries live

-- The reference is of the kind that the content needs.
abbrev pub Agrees : {V : Type 0} → Ref → Content V → Type 0
Agrees noref empty = Unit
Agrees refnil (holds nil) = Unit
Agrees (ref k) (holds (object v)) = Unit
Agrees _ _ = ⊥

abbrev pub ItemAgrees : {V : Type 0} → Item V → Type 0
ItemAgrees i = Agrees i.object.ref i.content

pub record IsOwned {V : Type 0} (s : State V) : Type 0 where
  pub owned : Shuffle (entries s.live) s.registry
  pub keys : Distinct key s.registry
  pub agree : All ItemAgrees s.live

module _ {V : Type 0} where
  entries-Shuffle : {is js : List (Item V)} → Shuffle is js → Shuffle (entries is) (entries js)
  entries-Shuffle nothing = nothing
  entries-Shuffle (keep i s) = Shuffle-append (entry_of i.object.ref i.content) (entries-Shuffle s)
  entries-Shuffle (exchange i j is) =
      Shuffle_parts (entry_of i.object.ref i.content) (entry_of j.object.ref j.content) (entries is)
  entries-Shuffle (both s t) = both (entries-Shuffle s) (entries-Shuffle t)

  reorder-IsOwned :
      (registry : Registry V) {is js : List (Item V)}
      → Shuffle is js
      → IsOwned (state registry is)
      → IsOwned (state registry js)
  reorder-IsOwned registry s h = record {
    owned = both (Shuffle_back (entries-Shuffle s)) h.owned;
    keys = h.keys;
    agree = Shuffle-All ItemAgrees s h.agree;
  }

  -- With different keys, an entry is found.
  pub find-Holds :
      (k : ℕ) (v : V) (registry : Registry V)
      → Distinct key registry
      → Holds registry (k, v)
      → find k registry ≡ object v
  unfolding find
  find-Holds k v [] d h = absurd h
  find-Holds k v ((j, w) ∷ registry) d (inl e) =
      let same_key : j ≡ k = ap (λ (p : ℕ × V). p.0) e in
      let same_value : w ≡ v = ap (λ (p : ℕ × V). p.1) e in
      rw (same_key, same_value, ==_self k) refl
  find-Holds k v ((j, w) ∷ registry) (others, d) (inr h) =
      rw (==_ne j k (λ e. differs registry h others (sym e))) (find-Holds k v registry d h)
    where
      differs : (es : Registry V) → Holds es (k, v) → All (λ (p : ℕ × V). key p ≢ j) es → k ≢ j
      differs [] held all = absurd held
      differs (p ∷ es) (inl e) (ne, all) = λ q. ne (ap (λ (x : ℕ × V). x.0) e ∙ q)
      differs (p ∷ es) (inr held) (ne, all) = differs es held all

  -- Removing an entry keeps the others.
  remove-Shuffle :
      (k : ℕ) {es fs : Registry V}
      → Shuffle es fs
      → Distinct key es
      → Shuffle (remove k es) (remove k fs)
  unfolding remove
  remove-Shuffle k nothing d = nothing
  remove-Shuffle k (keep (j, v) s) (others, d) = elim (Bool-cases (j == k)) [
    | inl e ↦ rw e s
    | inr e ↦ rw e (keep (j, v) (remove-Shuffle k s d))
  ]
  remove-Shuffle k (exchange (i, v) (j, w) es) ((ne, others), d) = elim (Bool-cases (i == k)) [
    | inl e ↦
        let other : (j == k) ≡ false = ==_ne j k (λ q. ne (q ∙ sym ((==_iff i k).0 e))) in
        rw (e, other) (Shuffle_self ((j, w) ∷ es))
    | inr e ↦ elim (Bool-cases (j == k)) [
      | inl f ↦ rw (e, f) (Shuffle_self ((i, v) ∷ es))
      | inr f ↦ rw (e, f) (exchange (i, v) (j, w) (remove k es))
    ]
  ]
  remove-Shuffle k (both s t) d =
      both (remove-Shuffle k s d) (remove-Shuffle k t (Shuffle-Distinct key s d))

  remove-All : (k : ℕ) (P : ℕ × V → Type 0) (es : Registry V) → All P es → All P (remove k es)
  unfolding remove
  remove-All k P [] h = tt
  remove-All k P ((j, v) ∷ es) (p, h) = elim (Bool-cases (j == k)) [
    | inl e ↦ rw e h
    | inr e ↦ rw e (p, remove-All k P es h)
  ]

  remove-Distinct : (k : ℕ) (es : Registry V) → Distinct key es → Distinct key (remove k es)
  unfolding remove
  remove-Distinct k [] d = tt
  remove-Distinct k ((j, v) ∷ es) (others, d) = elim (Bool-cases (j == k)) [
    | inl e ↦ rw e d
    | inr e ↦ rw e (remove-All k (λ p. key p ≢ j) es others, remove-Distinct k es d)
  ]

  -- An object that dies takes its entry with it.
  destroy-IsOwned :
      (fresh : Registry V → ℕ) (lua : Bool) (r : Ref) (c : Content V) (registry : Registry V)
      (live : List (Item V))
      → let o : LuaRef = record { lua = lua; ref = r } in
        IsOwned (state registry (item o c ∷ live)) → IsOwned (state (destroy fresh o registry) live)
  unfolding destroy remove
  destroy-IsOwned fresh lua noref empty registry live h = record {
    owned = h.owned;
    keys = h.keys;
    agree = h.agree.1;
  }
  destroy-IsOwned fresh lua refnil (holds nil) registry live h = record {
    owned = h.owned;
    keys = h.keys;
    agree = h.agree.1;
  }
  destroy-IsOwned fresh lua (ref k) (holds (object v)) registry live h =
      let d : Distinct key ((k, v) ∷ entries live) =
        Shuffle-Distinct key (Shuffle_back h.owned) h.keys in
      let gone : remove k ((k, v) ∷ entries live) ≡ entries live = rw (==_self k) refl in
      record {
        owned = subst (λ es. Shuffle es (remove k registry)) gone (remove-Shuffle k h.owned d);
        keys = remove-Distinct k registry h.keys;
        agree = h.agree.1;
      }
  destroy-IsOwned fresh lua noref (holds v) registry live h = absurd (h.agree.0)
  destroy-IsOwned fresh lua refnil empty registry live h = absurd (h.agree.0)
  destroy-IsOwned fresh lua refnil (holds (object v)) registry live h = absurd (h.agree.0)
  destroy-IsOwned fresh lua (ref k) empty registry live h = absurd (h.agree.0)
  destroy-IsOwned fresh lua (ref k) (holds nil) registry live h = absurd (h.agree.0)

module _ {V : Type 0} (fresh : Registry V → ℕ)
    (is_fresh : (registry : Registry V)
      → All (λ (e : ℕ × V). key e ≢ fresh registry) registry) where
  create-IsOwned :
      (v : Value V) (registry : Registry V) (live : List (Item V))
      → IsOwned (state registry live)
      → IsOwned
          (state (create fresh v registry).1 (item (create fresh v registry).0 (holds v) ∷ live))
  unfolding create
  create-IsOwned nil registry live h = record {
    owned = h.owned;
    keys = h.keys;
    agree = (tt, h.agree);
  }
  create-IsOwned (object v) registry live h = record {
    owned = keep (fresh registry, v) h.owned;
    keys = (is_fresh registry, h.keys);
    agree = (tt, h.agree);
  }

  -- A copy has an entry of its own, with the same value.
  copy-IsOwned :
      (lua : Bool) (r : Ref) (c : Content V) (registry : Registry V) (live : List (Item V))
      → let o : LuaRef = record { lua = lua; ref = r } in
        IsOwned (state registry (item o c ∷ live))
        → IsOwned
            (state (copy fresh o registry).1 (item (copy fresh o registry).0 c ∷ item o c ∷ live))
  unfolding copy
  copy-IsOwned lua noref empty registry live h = record {
    owned = h.owned;
    keys = h.keys;
    agree = (tt, h.agree);
  }
  copy-IsOwned lua refnil (holds nil) registry live h = record {
    owned = h.owned;
    keys = h.keys;
    agree = (tt, h.agree);
  }
  copy-IsOwned lua (ref k) (holds (object v)) registry live h =
      let found : find k registry ≡ object v =
        find-Holds k v registry h.keys (Shuffle-Holds (k, v) h.owned (inl refl)) in
      rw found (record {
        owned = keep (fresh registry, v) h.owned;
        keys = (is_fresh registry, h.keys);
        agree = (tt, h.agree);
      })
  copy-IsOwned lua noref (holds v) registry live h = absurd (h.agree.0)
  copy-IsOwned lua refnil empty registry live h = absurd (h.agree.0)
  copy-IsOwned lua refnil (holds (object v)) registry live h = absurd (h.agree.0)
  copy-IsOwned lua (ref k) empty registry live h = absurd (h.agree.0)
  copy-IsOwned lua (ref k) (holds nil) registry live h = absurd (h.agree.0)

  assign-IsOwned :
      (this value : LuaRef) (c d : Content V) (registry : Registry V) (live : List (Item V))
      → IsOwned (state registry (item this c ∷ item value d ∷ live))
      → IsOwned (
          state
            (assign fresh this value registry).1
            (item (assign fresh this value registry).0 d ∷ item value d ∷ live))
  unfolding assign
  assign-IsOwned this value c d registry live h =
      let (temporary, more) = copy fresh value registry in
      let copied : IsOwned (state more (item temporary d ∷ item value d ∷ item this c ∷ live)) =
        copy-IsOwned value.lua value.ref d registry (item this c ∷ live)
          (reorder-IsOwned registry (exchange (item this c) (item value d) live) h) in
      let last : IsOwned (state more (item this c ∷ item temporary d ∷ item value d ∷ live)) =
        reorder-IsOwned more
          (both (keep (item temporary d) (exchange (item value d) (item this c) live))
            (exchange (item temporary d) (item this c) (item value d ∷ live)))
          copied in
      destroy-IsOwned fresh this.lua this.ref c more (item temporary d ∷ item value d ∷ live) last

  Step-IsOwned : {s t : State V} → Step fresh s t → IsOwned s → IsOwned t
  Step-IsOwned (creates v registry live) h = create-IsOwned v registry live h
  Step-IsOwned (copies value c registry live) h = copy-IsOwned value.lua value.ref c registry live h
  Step-IsOwned (moves value c registry live) h = record {
    owned = h.owned;
    keys = h.keys;
    agree = (h.agree.0, (tt, h.agree.1));
  }
  Step-IsOwned (swaps a b c d registry live) h =
      reorder-IsOwned registry (exchange (item a c) (item b d) live) h
  Step-IsOwned (assigns this value c d registry live) h =
      assign-IsOwned this value c d registry live h
  Step-IsOwned (destroys o c registry live) h = destroy-IsOwned fresh o.lua o.ref c registry live h
  Step-IsOwned (reorders registry live live' s) h = reorder-IsOwned registry s h

  -- If `luaL_ref` chooses a key that is not in use: whatever objects are created, copied, moved,
  -- swapped, assigned and destroyed, the entries of the registry are just those that the live
  -- objects own, each object its own. So none is released twice, and none is left when no object is.
  pub Run-IsOwned : {s : State V} → Run fresh s → IsOwned s
  Run-IsOwned here = record { owned = nothing; keys = tt; agree = tt }
  Run-IsOwned (then run step) = Step-IsOwned step (Run-IsOwned run)
