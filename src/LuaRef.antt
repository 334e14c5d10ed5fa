-- ===== src/LuaRef.antt =====
-- client/LuaRef.hpp: objects that own entries of the Lua registry. `luaL_ref`, `luaL_unref` and
-- `lua_rawgeti` are Lua's; the number that `luaL_ref` chooses is a parameter.
pub mod Owned
pub mod Values
mod Tests
use snowcone.Prelude.{ℕ, Bool, true, false, List, [], ◌∷◌, Shuffle, ◌==◌, if◌then◌else◌}

-- `LUA_NOREF`, `LUA_REFNIL`, or the key of an entry.
pub data Ref : Type 0 where
  noref refnil : Ref
  ref : ℕ → Ref

pub record LuaRef : Type 0 where
  -- Whether `L_` is set.
  pub lua : Bool
  pub ref : Ref

-- What `lua_rawgeti` pushes.
pub data Value (V : Type 0) : Type 0 where
  nil : Value V
  object : V → Value V

abbrev pub Registry : Type 0 → Type 0
Registry V = List (ℕ × V)

module _ {V : Type 0} where
  unfoldable pub find : ℕ → Registry V → Value V
  find k [] = nil
  find k ((j, v) ∷ entries) = let rest = find k entries in if j == k then object v else rest

  unfoldable pub remove : ℕ → Registry V → Registry V
  remove k [] = []
  remove k ((j, v) ∷ entries) =
      let rest = remove k entries in if j == k then entries else (j, v) ∷ rest

  unfoldable pub push : LuaRef → Registry V → Value V
  unfolding find
  push o registry = elim o.ref [ noref ↦ nil | refnil ↦ nil | ref k ↦ find k registry ]

  -- `luaL_unref` does nothing to negative references.
  unfoldable pub registry_unref : Ref → Registry V → Registry V
  unfolding remove
  registry_unref noref registry = registry
  registry_unref refnil registry = registry
  registry_unref (ref k) registry = remove k registry

-- An object and the registry.
abbrev pub With : Type 0 → Type 0
With V = LuaRef × Registry V

abbrev pub object_of : Bool → Ref → LuaRef
object_of lua r = record { lua = lua; ref = r }

module _ {V : Type 0} (fresh : Registry V → ℕ) where
  -- `luaL_ref` gives `nil` no entry.
  abbrev pub registry_ref : Value V → Registry V → Ref × Registry V
  registry_ref nil registry = (refnil, registry)
  registry_ref (object v) registry = (ref (fresh registry), (fresh registry, v) ∷ registry)

  unfoldable pub create : Value V → Registry V → With V
  create v registry = let (r, entries) = registry_ref v registry in (object_of true r, entries)

  -- The copy constructor.
  unfoldable pub copy : LuaRef → Registry V → With V
  unfolding push
  copy value registry = elim value.ref [
    | noref ↦ (object_of value.lua noref, registry)
    | _ ↦
        let (r, entries) = registry_ref (push value registry) registry in
        (object_of value.lua r, entries)
  ]

  unfoldable pub destroy : LuaRef → Registry V → Registry V
  unfolding registry_unref
  destroy o registry = elim o.ref [ noref ↦ registry | _ ↦ registry_unref o.ref registry ]

  -- Both swaps and the move operations exchange the fields of two objects.
  abbrev pub swap : LuaRef → LuaRef → LuaRef × LuaRef
  swap first second = (second, first)

  -- The move constructor gives the new object and leaves the other.
  abbrev pub move : LuaRef → LuaRef × LuaRef
  move value = swap (object_of false noref) value

  -- The copy assignment from another object: a copy is moved in, and dies with what was here.
  unfoldable pub assign : LuaRef → LuaRef → Registry V → With V
  unfolding copy destroy
  assign this value registry =
      let (temporary, entries) = copy value registry in
      let (this', old) = swap this temporary in (this', destroy old entries)

-- What a program expects of an object: that it is empty, or refers to the value it was given.
pub data Content (V : Type 0) : Type 0 where
  empty : Content V
  holds : Value V → Content V

pub record Item (V : Type 0) : Type 0 where
  pub object : LuaRef
  pub content : Content V

abbrev pub item : {V : Type 0} → LuaRef → Content V → Item V
item o c = record { object = o; content = c }

-- The registry and the objects that are alive.
pub record State (V : Type 0) : Type 0 where
  pub registry : Registry V
  pub live : List (Item V)

abbrev pub state : {V : Type 0} → Registry V → List (Item V) → State V
state registry live = record { registry = registry; live = live }

-- The operations on the objects, which stand in any order.
pub data Step {V : Type 0} (fresh : Registry V → ℕ) : State V → State V → Type 0 where
  creates :
      (v : Value V) (registry : Registry V) (live : List (Item V))
      → Step fresh
          (state registry live)
          (state (create fresh v registry).1 (item (create fresh v registry).0 (holds v) ∷ live))
  copies :
      (value : LuaRef) (c : Content V) (registry : Registry V) (live : List (Item V))
      → Step fresh (state registry (item value c ∷ live)) (
          state
            (copy fresh value registry).1
            (item (copy fresh value registry).0 c ∷ item value c ∷ live))
  moves :
      (value : LuaRef) (c : Content V) (registry : Registry V) (live : List (Item V))
      → Step fresh
          (state registry (item value c ∷ live))
          (state registry (item (move fresh value).0 c ∷ item (move fresh value).1 empty ∷ live))
  swaps :
      (a b : LuaRef) (c d : Content V) (registry : Registry V) (live : List (Item V))
      → Step fresh
          (state registry (item a c ∷ item b d ∷ live))
          (state registry (item (swap fresh a b).0 d ∷ item (swap fresh a b).1 c ∷ live))
  assigns :
      (this value : LuaRef) (c d : Content V) (registry : Registry V) (live : List (Item V))
      → Step fresh (state registry (item this c ∷ item value d ∷ live)) (
          state
            (assign fresh this value registry).1
            (item (assign fresh this value registry).0 d ∷ item value d ∷ live))
  destroys :
      (o : LuaRef) (c : Content V) (registry : Registry V) (live : List (Item V))
      → Step fresh (state registry (item o c ∷ live)) (state (destroy fresh o registry) live)
  reorders :
      (registry : Registry V) (live live' : List (Item V))
      → Shuffle live live'
      → Step fresh (state registry live) (state registry live')

pub data Run {V : Type 0} (fresh : Registry V → ℕ) : State V → Type 0 where
  here : Run fresh (state [] [])
  then : {s t : State V} → Run fresh s → Step fresh s t → Run fresh t
