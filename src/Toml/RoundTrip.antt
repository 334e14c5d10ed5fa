-- ===== src/Toml/RoundTrip.antt =====
-- What `push_toml` gives to Lua, `export_value` takes back.
use snowcone.Prelude.{
  pos, ℕ, suc, ◌≤◌, ◌≡◌, ◌≢◌, refl, sym, ap, ◌∙◌, inl, inr, some, List, [], ◌∷◌, map, Bytes,
  same_self, arith, length, All, Shuffle, Shuffle-length, Shuffle-Holds, Shuffle-Distinct, Holds,
  Distinct,
}
use snowcone.Toml.{
  Toml, floating, array, table, datetime, Items, no_items, item, Fields, no_fields, field, index,
  name, Lua, number, Entries, no_entries, entry, Result, ok, thrown, invalid_key_to_next, running,
  ◌>>=◌,
}
use snowcone.Toml.Export.{Slot, Interpreter, export_table, export_value, slots_of, toboolean}
use snowcone.Toml.Export.Loops.{Pair, slot, pair_key, to_fields, same_ne}
use snowcone.Toml.Export.Arrays.{array_slots, to_items}
use snowcone.Toml.Push.{push_toml, push_array, push_table}
use snowcone.Toml.Same.{
  find, count, Same, SameArray, SameItems, SameFields, Lacks, HasKeys, HaveKeys, AreKeys, size,
  size_items, size_fields,
}
use snowcone.Toml.Tables.{export_table-empty, export_table-array, export_table-fields}

pub >>=-ok {ℓ κ} :
    {A : Type ℓ} {B : Type κ} (m : Result A) (more : A → Result B) {b : B}
    → (m >>= more) ≡ ok b
    → (a : A) × (m ≡ ok a) × (more a ≡ ok b)
>>=-ok (ok a) more h = (a, refl, h)
>>=-ok (thrown e) more h = cc
>>=-ok invalid_key_to_next more h = cc
>>=-ok running more h = cc

-- The pairs are those of the fields, with what their values have become.
abbrev Matches : Fields → List Pair → Type 0
Matches no_fields pairs = pairs ≡ []
Matches (field k x fs) [] = ⊥
Matches (field k x fs) ((j, y) ∷ pairs) = (j ≡ k) × Same x y × Matches fs pairs

Matches-length : (fs : Fields) (pairs : List Pair) → Matches fs pairs → length pairs ≡ count fs
Matches-length no_fields pairs m = ap length m
Matches-length (field k x fs) [] m = absurd m
Matches-length (field k x fs) ((j, y) ∷ pairs) (e, s, m) = ap suc (Matches-length fs pairs m)

Matches-fresh :
    (k : Bytes) (fs : Fields) (pairs : List Pair)
    → Matches fs pairs
    → Lacks k fs
    → All (λ (p : Pair). pair_key p ≢ k) pairs
Matches-fresh k no_fields pairs m h = rw m tt
Matches-fresh k (field l x fs) [] m h = tt
Matches-fresh k (field l x fs) ((j, y) ∷ pairs) (e, s, m) (other, h) =
    (λ q. other (sym e ∙ q), Matches-fresh k fs pairs m h)

Matches-Distinct :
    (fs : Fields) (pairs : List Pair) → Matches fs pairs → AreKeys fs → Distinct pair_key pairs
unfolding HasKeys
Matches-Distinct no_fields pairs m h = rw m tt
Matches-Distinct (field k x fs) [] m h = tt
Matches-Distinct (field k x fs) ((j, y) ∷ pairs) (e, s, m) (fresh, _, h) =
    (rw e (Matches-fresh k fs pairs m fresh), Matches-Distinct fs pairs m h)

-- With different keys, what is held is found.
find-Holds :
    (k : Bytes) (y : Toml) (pairs : List Pair)
    → Distinct pair_key pairs
    → Holds pairs (k, y)
    → find k (to_fields pairs) ≡ some y
unfolding find
find-Holds k y [] d h = absurd h
find-Holds k y ((j, z) ∷ pairs) d (inl e) =
    let same_key : j ≡ k = ap (λ (p : Pair). p.0) e in
    let same_value : z ≡ y = ap (λ (p : Pair). p.1) e in rw (same_key, same_value, same_self k) refl
find-Holds k y ((j, z) ∷ pairs) (others, d) (inr h) =
    rw (same_ne j k (λ e. others_differ pairs h others (sym e))) (find-Holds k y pairs d h)
  where
    others_differ :
        (ps : List Pair) → Holds ps (k, y) → All (λ (p : Pair). pair_key p ≢ j) ps → k ≢ j
    others_differ [] held all = absurd held
    others_differ (p ∷ ps) (inl e) (ne, all) = λ q. ne (ap (λ (p : Pair). p.0) e ∙ q)
    others_differ (p ∷ ps) (inr held) (ne, all) = others_differ ps held all

Matches-SameFields :
    (fs : Fields) (pairs visited : List Pair)
    → Matches fs pairs
    → ((p : Pair) → Holds pairs p → Holds visited p)
    → Distinct pair_key visited
    → SameFields fs (to_fields visited)
unfolding Same
Matches-SameFields no_fields pairs visited m h d = tt
Matches-SameFields (field k x fs) [] visited m h d = absurd m
Matches-SameFields (field k x fs) ((j, y) ∷ pairs) visited (e, s, m) h d = (
  (y, find-Holds k y visited d (rw e at (h (j, y) (inl refl))), s),
  Matches-SameFields fs pairs visited m (λ p held. h p (inr held)) d,
)

count-to_fields : (pairs : List Pair) → count (to_fields pairs) ≡ length pairs
count-to_fields [] = refl
count-to_fields (p ∷ pairs) = ap suc (count-to_fields pairs)

count-le-size : (fs : Fields) → count fs ≤ size_fields fs
unfolding size
count-le-size no_fields = omega arith
count-le-size (field k x fs) = omega (arith, count-le-size fs)

module _ (lua : Interpreter) (visits : (slots : List Slot) → Shuffle slots (lua.order slots))
    (fuel : ℕ) where
  abbrev ComesBack : Toml → Type 0
  ComesBack v =
      (l : Lua)
      → HasKeys v
      → size v ≤ fuel
      → push_toml v ≡ ok l
      → (w : Toml) × (export_value lua fuel l ≡ ok w) × Same v w

  abbrev ItemsComeBack : Items → Type 0
  ItemsComeBack xs =
      (i : ℕ) (es : Entries)
      → HaveKeys xs
      → size_items xs ≤ fuel
      → push_array i xs ≡ ok es
      → (ws : List Toml) × (slots_of lua fuel es ≡ array_slots i ws) × SameItems xs (to_items ws)

  abbrev FieldsComeBack : Fields → Type 0
  FieldsComeBack fs =
      (es : Entries)
      → AreKeys fs
      → size_fields fs ≤ fuel
      → push_table fs ≡ ok es
      → (pairs : List Pair) × (slots_of lua fuel es ≡ map slot pairs) × Matches fs pairs

  -- An array of one element at least.
  item_back :
      (x : Toml) (xs : Items) (l : Lua) (es : Entries)
      → table es ≡ l
      → (ws : List Toml) → slots_of lua fuel es ≡ array_slots 0 ws
      → SameItems (item x xs) (to_items ws)
      → (w : Toml) × (export_value lua fuel l ≡ ok w) × SameArray (item x xs) w
  unfolding export_value Same
  item_back x xs l es e [] slots (y, t, made, s, ss) = absurd (cc)
  item_back x xs l es e (v ∷ vs) slots (y, t, made, s, ss) = (
    array (to_items (v ∷ vs)),
    rw (← e) (ap (λ t. export_table lua fuel t) slots ∙ export_table-array lua visits fuel v vs),
    (y, t, ap array made, s, ss),
  )

  fields_back :
      (fs : Fields) (l : Lua) (es : Entries)
      → table es ≡ l
      → AreKeys fs
      → size_fields fs ≤ fuel
      → (pairs : List Pair) → slots_of lua fuel es ≡ map slot pairs
      → Matches fs pairs
      → (w : Toml) × (export_value lua fuel l ≡ ok w) × Same (table fs) w
  unfolding export_value Same
  fields_back fs l es e keys fits pairs slots m =
      let few : length pairs ≤ fuel = omega (arith, Matches-length fs pairs m, count-le-size fs) in
      let different = Matches-Distinct fs pairs m keys in
      let (visited, s, exported) = export_table-fields lua visits fuel pairs few different in
      let as_many : count (to_fields visited) ≡ count fs =
        count-to_fields visited ∙ (Shuffle-length s ∙ Matches-length fs pairs m) in
      (
        table (to_fields visited),
        rw (← e) (ap (λ t. export_table lua fuel t) slots ∙ exported),
        (
          to_fields visited,
          refl,
          as_many,
          Matches-SameFields fs pairs visited m (λ p held. Shuffle-Holds p s held)
              (Shuffle-Distinct pair_key s different),
        ),
      )

  mutual
    unfolding push_toml export_value Same HasKeys size

    back : (v : Toml) → ComesBack v
    back (array no_items) l h fits e =
        let made : table no_entries ≡ l = cc in
        (table no_fields, rw (← made) (export_table-empty lua visits fuel), refl)
    back (array (item x xs)) l h fits e =
        let (es, pushed, made) = >>=-ok (push_array 0 (item x xs)) (λ t. ok (Lua.table t)) e in
        let (ws, slots, s) = items_back (item x xs) 0 es h (omega arith) pushed in
        item_back x xs l es (cc) ws slots s
    back (Toml.table fs) l h fits e =
        let (es, pushed, made) = >>=-ok (push_table fs) (λ t. ok (Lua.table t)) e in
        let (pairs, slots, m) = pairs_back fs es h (omega arith) pushed in
        fields_back fs l es (cc) h (omega arith) pairs slots m
    back (Toml.boolean b) l h fits e =
        let made : Lua.boolean b ≡ l = cc in rw (← made) (Toml.integer (toboolean b), refl, refl)
    back (Toml.integer i) l h fits e =
        let made : Lua.integer i ≡ l = cc in rw (← made) (Toml.integer i, refl, refl)
    back (floating x) l h fits e =
        let made : number x ≡ l = cc in rw (← made) (floating x, refl, refl)
    back (Toml.string s) l h fits e =
        let made : Lua.string s ≡ l = cc in rw (← made) (Toml.string s, refl, refl)
    back (datetime d) l h fits e = absurd (cc)

    items_back : (xs : Items) → ItemsComeBack xs
    items_back no_items i es h fits e =
        let made : no_entries ≡ es = cc in rw (← made) ([], refl, refl)
    items_back (item x xs) i es (h, hs) fits e =
        let (l, pushed, e') = >>=-ok (push_toml x) _ e in
        let (rest, more, e'') = >>=-ok (push_array (suc i) xs) _ e' in
        let (w, exported, s) = back x l h (omega arith) pushed in
        let (ws, slots, ss) = items_back xs (suc i) rest hs (omega arith) more in
        let made : entry (index (pos (suc i))) l rest ≡ es = cc in
        (w ∷ ws, rw (← made) (rw (exported, slots) refl), (w, to_items ws, refl, s, ss))

    pairs_back : (fs : Fields) → FieldsComeBack fs
    pairs_back no_fields es h fits e =
        let made : no_entries ≡ es = cc in rw (← made) ([], refl, refl)
    pairs_back (field k x fs) es (fresh, h, hs) fits e =
        let (l, pushed, e') = >>=-ok (push_toml x) _ e in
        let (rest, more, e'') = >>=-ok (push_table fs) _ e' in
        let (w, exported, s) = back x l h (omega arith) pushed in
        let (pairs, slots, m) = pairs_back fs rest hs (omega arith) more in
        let made : entry (name k) l rest ≡ es = cc in
        ((k, w) ∷ pairs, rw (← made) (rw (exported, slots) refl), (refl, s, m))
