-- ===== src/Report/Value.antt =====
-- JSON values as Python reads them, for the reports that scripts/art_bundle.py and
-- scripts/service_bundle.py check: items, `get`, truth, identity and equality, where `True == 1`.
use artbox.Base.{
  ℕ, suc, ◌-◌, ◌*◌, ◌^◌, ◌==◌, ◌&&◌, not, if◌then◌else◌, Bool, true, false, Option, none, some,
  List, [], ◌∷◌, Result, ok, err,
}
use artbox.Base.Int.{ℤ, pos, negsuc, leb_ℤ}
use artbox.Base.Text.{◌≟◌}

-- A `float` is a fraction over a power of two.
mutual
  pub data Value : Type 0 where
    null : Value
    boolean : Bool → Value
    integer : ℤ → Value
    fraction : ℤ → ℕ → Value
    text : List ℕ → Value
    array : Items → Value
    object : Fields → Value

  pub data Items : Type 0 where
    no_items : Items
    item : Value → Items → Items

  pub data Fields : Type 0 where
    no_fields : Fields
    field : List ℕ → Value → Fields → Fields

-- `fields.get(key)`
unfoldable pub field_of : List ℕ → Fields → Option Value
field_of key no_fields = none
field_of key (field name value rest) =
    let found = field_of key rest in if key ≟ name then some value else found

abbrev pub or_key_error : Option Value → Result Value
or_key_error none = err "KeyError"
or_key_error (some value) = ok value

-- `value[key]` of a text key.
unfoldable pub item_of : Value → List ℕ → Result Value
item_of (object entries) key = or_key_error (field_of key entries)
item_of null key = err "TypeError"
item_of (boolean b) key = err "TypeError"
item_of (integer n) key = err "TypeError"
item_of (fraction n k) key = err "TypeError"
item_of (text cs) key = err "TypeError"
item_of (array members) key = err "TypeError"

abbrev pub or_null : Option Value → Value
or_null none = null
or_null (some value) = value

-- `value.get(key)`
unfoldable pub get_of : Value → List ℕ → Result Value
get_of (object entries) key = ok (or_null (field_of key entries))
get_of null key = err "AttributeError"
get_of (boolean b) key = err "AttributeError"
get_of (integer n) key = err "AttributeError"
get_of (fraction n k) key = err "AttributeError"
get_of (text cs) key = err "AttributeError"
get_of (array members) key = err "AttributeError"

-- `value is True`
unfoldable pub is_true : Value → Bool
is_true (boolean b) = b
is_true null = false
is_true (integer n) = false
is_true (fraction n k) = false
is_true (text cs) = false
is_true (array members) = false
is_true (object entries) = false

unfoldable pub is_false : Value → Bool
is_false (boolean b) = not b
is_false null = false
is_false (integer n) = false
is_false (fraction n k) = false
is_false (text cs) = false
is_false (array members) = false
is_false (object entries) = false

abbrev is_zero : ℤ → Bool
is_zero n = leb_ℤ n (pos 0) && leb_ℤ (pos 0) n

-- `bool(value)`
unfoldable pub truth : Value → Bool
truth null = false
truth (boolean b) = b
truth (integer n) = not (is_zero n)
truth (fraction n k) = not (is_zero n)
truth (text []) = false
truth (text (c ∷ cs)) = true
truth (array no_items) = false
truth (array (item v vs)) = true
truth (object no_fields) = false
truth (object (field k v fs)) = true

-- A number as a fraction: a Boolean is 0 or 1.
unfoldable pub number_of : Value → Option (ℤ × ℕ)
number_of (boolean true) = some (pos 1, 0)
number_of (boolean false) = some (pos 0, 0)
number_of (integer n) = some (n, 0)
number_of (fraction n k) = some (n, k)
number_of null = none
number_of (text cs) = none
number_of (array members) = none
number_of (object entries) = none

-- `type(value) is int`
unfoldable pub int_of : Value → Option ℤ
int_of (integer n) = some n
int_of null = none
int_of (boolean b) = none
int_of (fraction n k) = none
int_of (text cs) = none
int_of (array members) = none
int_of (object entries) = none

abbrev scaled : ℤ → ℕ → ℤ
scaled (pos n) k = pos (n * 2 ^ k)
scaled (negsuc n) k = if suc n * 2 ^ k == 0 then pos 0 else negsuc (suc n * 2 ^ k - 1)

-- `a <= b` and `a < b` of fractions.
unfoldable pub at_most : ℤ × ℕ → ℤ × ℕ → Bool
at_most a b = leb_ℤ (scaled a.0 b.1) (scaled b.0 a.1)

abbrev pub below_number : ℤ × ℕ → ℤ × ℕ → Bool
below_number a b = not (at_most b a)

abbrev pub same_number : ℤ × ℕ → ℤ × ℕ → Bool
same_number a b = at_most a b && at_most b a

abbrev pub same_numbers : Option (ℤ × ℕ) → Option (ℤ × ℕ) → Bool
same_numbers none b = false
same_numbers (some a) none = false
same_numbers (some a) (some b) = same_number a b

unfoldable pub count_fields : Fields → ℕ
count_fields no_fields = 0
count_fields (field k v rest) = suc (count_fields rest)

-- The other value when it is of the same kind.
unfoldable pub is_null : Value → Bool
is_null null = true
is_null (boolean b) = false
is_null (integer n) = false
is_null (fraction n k) = false
is_null (text cs) = false
is_null (array members) = false
is_null (object entries) = false

unfoldable pub is_text : List ℕ → Value → Bool
is_text cs (text ds) = cs ≟ ds
is_text cs null = false
is_text cs (boolean b) = false
is_text cs (integer n) = false
is_text cs (fraction n k) = false
is_text cs (array members) = false
is_text cs (object entries) = false

unfoldable pub items_of : Value → Option Items
items_of (array members) = some members
items_of null = none
items_of (boolean b) = none
items_of (integer n) = none
items_of (fraction n k) = none
items_of (text cs) = none
items_of (object entries) = none

unfoldable pub fields_of : Value → Option Fields
fields_of (object entries) = some entries
fields_of null = none
fields_of (boolean b) = none
fields_of (integer n) = none
fields_of (fraction n k) = none
fields_of (text cs) = none
fields_of (array members) = none

-- `a == b`; objects are equal whatever the order of their keys.
unfoldable mutual
  pub same_value : Value → Value → Bool
  same_value null b = is_null b
  same_value (boolean a) b = same_numbers (number_of (boolean a)) (number_of b)
  same_value (integer a) b = same_numbers (number_of (integer a)) (number_of b)
  same_value (fraction a k) b = same_numbers (number_of (fraction a k)) (number_of b)
  same_value (text cs) b = is_text cs b
  same_value (array vs) b = same_items vs (items_of b)
  same_value (object fs) b = same_fields fs (fields_of b)

  pub same_items : Items → Option Items → Bool
  same_items no_items none = false
  same_items (item v vs) none = false
  same_items no_items (some no_items) = true
  same_items no_items (some (item w ws)) = false
  same_items (item v vs) (some no_items) = false
  same_items (item v vs) (some (item w ws)) = same_value v w && same_items vs (some ws)

  pub same_fields : Fields → Option Fields → Bool
  same_fields no_fields none = false
  same_fields no_fields (some gs) = count_fields gs == 0
  same_fields (field key v fs) none = false
  same_fields (field key v fs) (some gs) =
      suc (count_fields fs) == count_fields gs
      && elim (field_of key gs) [ none ↦ false | some w ↦ same_value v w ]
      && all_fields fs gs

  pub all_fields : Fields → Fields → Bool
  all_fields no_fields gs = true
  all_fields (field key v fs) gs =
      elim (field_of key gs) [ none ↦ false | some w ↦ same_value v w ] && all_fields fs gs
