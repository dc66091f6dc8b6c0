-- ===== src/Report/Checks.antt =====
-- The conditions on reports that scripts/art_bundle.py and scripts/service_bundle.py write: tests that
-- may raise, `and`, `all` and the handler around them.
use artbox.Base.{
  ℕ, ◌||◌, not, if◌then◌else◌, Bool, true, false, Option, none, some, String, List, [], ◌∷◌, Result,
  ok, err, require, ◌>>=◌,
}
use artbox.Base.Int.{ℤ, pos, ltb_ℤ}
use artbox.Base.Text.{codes, ◌≟◌}
use artbox.Report.Value.{
  Value, integer, item_of, get_of, is_true, is_false, truth, number_of, int_of, at_most, same_value,
}

-- `a and b`, where the second test is not made when the first fails.
infixr 20 ◌and_then◌
abbrev pub ◌and_then◌ : Result Bool → Result Bool → Result Bool
err message and_then b = err message
ok true and_then b = b
ok false and_then b = ok false

-- `require(condition, message)`
abbrev pub check : Result Bool → String → Result (Unit {0})
check condition message = condition >>= λ passed. require passed message

-- `report.get(key) is True` for all keys.
unfoldable pub all_get_true : Value → List (List ℕ) → Result Bool
all_get_true report [] = ok true
all_get_true report (key ∷ keys) =
    (get_of report key >>= λ v. ok (is_true v)) and_then all_get_true report keys

-- `report[key] is True`
abbrev pub item_true : Value → List ℕ → Result Bool
item_true report key = item_of report key >>= λ v. ok (is_true v)

abbrev pub item_false : Value → List ℕ → Result Bool
item_false report key = item_of report key >>= λ v. ok (is_false v)

unfoldable pub all_item_true : Value → List (List ℕ) → Result Bool
all_item_true report [] = ok true
all_item_true report (key ∷ keys) = item_true report key and_then all_item_true report keys

-- `not report.get(key)`
abbrev pub get_untrue : Value → List ℕ → Result Bool
get_untrue report key = get_of report key >>= λ v. ok (not (truth v))

-- `report[key] == value`
abbrev pub item_is : Value → List ℕ → Value → Result Bool
item_is report key value = item_of report key >>= λ v. ok (same_value v value)

abbrev pub item_is_number : Value → List ℕ → ℕ → Result Bool
item_is_number report key n = item_is report key (integer (pos n))

abbrev pub or_type_error {ℓ} : {A : Type ℓ} → Option A → Result A
or_type_error none = err "TypeError"
or_type_error (some a) = ok a

-- The value of an item that a comparison reads.
abbrev pub item_number : Value → List ℕ → Result (ℤ × ℕ)
item_number report key = item_of report key >>= λ v. or_type_error (number_of v)

-- `report[key] >= n`
abbrev pub item_at_least : Value → List ℕ → ℕ → Result Bool
item_at_least report key n = item_number report key >>= λ a. ok (at_most (pos n, 0) a)

abbrev pub is_some_int : Option ℤ → Bool
is_some_int none = false
is_some_int (some n) = true

-- `type(report[key]) is int`
abbrev pub item_int : Value → List ℕ → Result Bool
item_int report key = item_of report key >>= λ v. ok (is_some_int (int_of v))

abbrev pub is_positive : Option ℤ → Bool
is_positive none = false
is_positive (some n) = ltb_ℤ (pos 0) n

-- `all(type(report[key]) is int and report[key] > 0 for key in keys)`
unfoldable pub all_positive : Value → List (List ℕ) → Result Bool
all_positive report [] = ok true
all_positive report (key ∷ keys) =
    (item_of report key >>= λ v. ok (is_positive (int_of v))) and_then all_positive report keys

-- `except (KeyError, TypeError) as error: raise RuntimeError(message) from error`
unfoldable pub or_incomplete : String → Result (Unit {0}) → Result (Unit {0})
or_incomplete message (ok passed) = ok passed
or_incomplete message (err raised) =
    if codes raised ≟ codes "KeyError" || codes raised ≟ codes "TypeError"
    then err message
    else err raised
