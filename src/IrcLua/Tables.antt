-- ===== src/IrcLua/Tables.antt =====
-- What a script finds in the tables.
use snowcone.Prelude.{
  same, pos, ℕ, ◌+◌, ◌*◌, ◌-◌, ◌<◌, ◌≡◌, refl, sym, ap, ◌∙◌, ◌^◌, inl, inr, Bool-cases, true, false,
  Option, none, some, List, [], ◌∷◌, Bytes, arith, if◌then◌else◌, ◌==◌, leb,
}
use snowcone.IrcMsg.{IrcTag}
use snowcone.IrcLua.{
  Table, settable, gettable, settags, pushtags, integer, pushcommand, from_chars, digits, is_digit,
  after_sign, at_most,
}

abbrev pub first_of : Option Bytes → Option Bytes → Option Bytes
first_of none later = later
first_of (some v) later = some v

-- The value of the last tag with the key.
abbrev pub last_value : Bytes → List IrcTag → Option Bytes
last_value key [] = none
last_value key (tag ∷ tags) =
    first_of (last_value key tags) (if same tag.key key then some tag.val else none)

first_of_assoc : (a b c : Option Bytes) → first_of (first_of a b) c ≡ first_of a (first_of b c)
first_of_assoc none b c = refl
first_of_assoc (some v) b c = refl

gettable-settable :
    (key k v : Bytes) (table : Table)
    → gettable key (settable k v table)
      ≡ first_of (if same k key then some v else none) (gettable key table)
unfolding gettable
gettable-settable key k v table = elim (Bool-cases (same k key)) [
  | inl e ↦ rw e refl
  | inr e ↦ rw e refl
]

gettable-settags :
    (key : Bytes) (tags : List IrcTag) (table : Table)
    → gettable key (settags tags table) ≡ first_of (last_value key tags) (gettable key table)
unfolding settags
gettable-settags key [] table = refl
gettable-settags key (tag ∷ tags) table =
    gettable-settags key tags (settable tag.key tag.val table)
    ∙ (ap (λ t. first_of (last_value key tags) t) (gettable-settable key tag.key tag.val table)
        ∙ sym (first_of_assoc (last_value key tags) _ (gettable key table)))

first_of-none : (o : Option Bytes) → first_of o none ≡ o
first_of-none none = refl
first_of-none (some v) = refl

-- A script finds under each key the value of the last tag with that key, and nothing under others.
pub gettable-pushtags :
    (key : Bytes) (tags : List IrcTag) → gettable key (pushtags tags) ≡ last_value key tags
unfolding pushtags gettable
gettable-pushtags key tags = gettable-settags key tags [] ∙ first_of-none (last_value key tags)

digits_step :
    (a : ℕ) (s : Bytes) (value : ℕ)
    → a < 10
    → digits ((48 + a) ∷ s) value ≡ digits s (value * 10 + a)
digits_step a s value h =
    let digit : is_digit (48 + a) ≡ true = ground arith in
    let same_digit : 48 + a - 48 ≡ a = omega arith in unfold digits in rw (digit, same_digit) refl

digits_nil : (value : ℕ) → digits [] value ≡ some value
digits_nil value = unfold digits in refl

from_chars_lem :
    (c : ℕ) (s : Bytes)
    → from_chars (c ∷ s) ≡ (
        if c == 45
        then after_sign s
        else at_most (2 ^ 63 - 1) (λ value. pos value) (digits (c ∷ s) 0))
from_chars_lem c s = unfold from_chars in refl

-- A numeric reply of three digits is the integer that they write.
pub pushcommand-from_chars :
    (a b c : ℕ)
    → a < 10
    → b < 10
    → c < 10
    → let command = (48 + a) ∷ (48 + b) ∷ (48 + c) ∷ [] in
      pushcommand command (from_chars command) ≡ integer (pos (a * 100 + b * 10 + c))
pushcommand-from_chars a b c ha hb hc =
    let value : ((0 * 10 + a) * 10 + b) * 10 + c ≡ a * 100 + b * 10 + c = omega arith in
    let fits : leb (a * 100 + b * 10 + c) (2 ^ 63 - 1) ≡ true = ground arith in
    let unsigned : (48 + a == 45) ≡ false = ground arith in
    let three : digits ((48 + a) ∷ (48 + b) ∷ (48 + c) ∷ []) 0 ≡ some (a * 100 + b * 10 + c) =
      digits_step a ((48 + b) ∷ (48 + c) ∷ []) 0 ha
      ∙ digits_step b ((48 + c) ∷ []) (0 * 10 + a) hb
      ∙ digits_step c [] ((0 * 10 + a) * 10 + b) hc
      ∙ digits_nil (((0 * 10 + a) * 10 + b) * 10 + c)
      ∙ ap (λ n. some n) value in
    rw (from_chars_lem (48 + a) ((48 + b) ∷ (48 + c) ∷ [])) (rw (unsigned, three) (rw fits refl))
