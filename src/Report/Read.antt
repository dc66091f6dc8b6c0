-- ===== src/Report/Read.antt =====
-- scripts/art_bundle.py: what the conditions of `validate_acceptance` say of single items.
use artbox.Base.{
  ℕ, true, false, List, [], ◌∷◌, ok, ◌>>=◌, ◌≡◌, refl, sym, ◌∙◌, arith, >>=-elim, ok-injective,
}
use artbox.Base.Int.{ℤ, pos, negsuc, ltb_ℤ, leb_ℤ}
use artbox.Paths.Laws.{Every}
use artbox.Sources.Plan.{not-true}
use artbox.Report.Value.{
  Value, null, boolean, integer, fraction, text, array, object, item_of, get_of, is_true, number_of,
  int_of, at_most, below_number, same_value,
}
use artbox.Report.Checks.{
  ◌and_then◌, all_get_true, item_true, all_item_true, item_is, item_int, is_some_int,
}
use artbox.Report.Passed.{and_then-true, is_true-eq, item_true-eq}
use artbox.Report.Art.{ordered_ints}

-- `report.get(key)` is `True`.
abbrev pub IsObserved : Value → List ℕ → Type 0
IsObserved report key = get_of report key ≡ ok (boolean true)

pub all_get_true-IsObserved :
    (report : Value) (keys : List (List ℕ))
    → all_get_true report keys ≡ ok true
    → Every (IsObserved report) keys
unfolding all_get_true
all_get_true-IsObserved report [] h = tt
all_get_true-IsObserved report (key ∷ keys) h =
    let (first, rest) =
      and_then-true (get_of report key >>= λ v. ok (is_true v)) (all_get_true report keys) h in
    (
      >>=-elim (get_of report key) first λ v read is. rw (is_true-eq v (ok-injective is)) at read,
      all_get_true-IsObserved report keys rest,
    )

abbrev pub IsFlagged : Value → List ℕ → Type 0
IsFlagged report key = item_of report key ≡ ok (boolean true)

pub all_item_true-IsFlagged :
    (report : Value) (keys : List (List ℕ))
    → all_item_true report keys ≡ ok true
    → Every (IsFlagged report) keys
unfolding all_item_true
all_item_true-IsFlagged report [] h = tt
all_item_true-IsFlagged report (key ∷ keys) h =
    let (first, rest) = and_then-true (item_true report key) (all_item_true report keys) h in
    (item_true-eq report key first, all_item_true-IsFlagged report keys rest)

-- An item that is equal to a value in Python.
abbrev pub IsEqual : Value → List ℕ → Value → Type 0
IsEqual report key value = (v : Value) × (item_of report key ≡ ok v) × (same_value v value ≡ true)

pub item_is-IsEqual :
    (report : Value) (key : List ℕ) (value : Value)
    → item_is report key value ≡ ok true
    → IsEqual report key value
item_is-IsEqual report key value h =
    >>=-elim (item_of report key) h λ v read is. (v, read, ok-injective is)

some_int : (v : Value) → is_some_int (int_of v) ≡ true → (n : ℤ) × (v ≡ integer n)
unfolding int_of
some_int (integer n) h = (n, refl)
some_int (boolean b) h = cc
some_int null h = cc
some_int (fraction n k) h = cc
some_int (text cs) h = cc
some_int (array members) h = cc
some_int (object entries) h = cc

pub item_int-eq :
    (report : Value) (key : List ℕ)
    → item_int report key ≡ ok true
    → (n : ℤ) × (item_of report key ≡ ok (integer n))
item_int-eq report key h =
    >>=-elim (item_of report key) h
      λ v read is. let (n, same) = some_int v (ok-injective is) in (n, rw same at read)

at_most-ints : (a b : ℤ) → at_most (a, 0) (b, 0) ≡ leb_ℤ a b
unfolding at_most
at_most-ints (pos a) (pos b) = ground arith
at_most-ints (pos a) (negsuc b) = ground arith
at_most-ints (negsuc a) (pos b) = ground arith
at_most-ints (negsuc a) (negsuc b) = ground arith

-- Two ints in order, the first not negative.
abbrev pub IsOrdered : Value → List ℕ → List ℕ → Type 0
IsOrdered report first second =
    (a : ℤ) × (b : ℤ) × (item_of report first ≡ ok (integer a))
    × (item_of report second ≡ ok (integer b))
    × (leb_ℤ (pos 0) a ≡ true)
    × (ltb_ℤ a b ≡ true)

pub ints_below : (a b : ℤ) → below_number (a, 0) (b, 0) ≡ true → ltb_ℤ a b ≡ true
ints_below a b h = let e : leb_ℤ b a ≡ false = sym (at_most-ints b a) ∙ not-true h in ground arith

pub ordered_ints-IsOrdered :
    (report : Value) (first second : List ℕ)
    → item_int report first ≡ ok true
    → item_int report second ≡ ok true
    → ordered_ints report first second ≡ ok true
    → IsOrdered report first second
unfolding ordered_ints number_of
ordered_ints-IsOrdered report first second int_first int_second h =
    let (a, read_a) = item_int-eq report first int_first in
    let (b, read_b) = item_int-eq report second int_second in
    let whole : (ok (at_most (pos 0, 0) (a, 0)) and_then ok (below_number (a, 0) (b, 0)))
        ≡ ok true =
      rw (read_a, read_b) at h in
    let (low, high) =
      and_then-true (ok (at_most (pos 0, 0) (a, 0))) (ok (below_number (a, 0) (b, 0))) whole in
    (
      a,
      b,
      read_a,
      read_b,
      sym (at_most-ints (pos 0) a) ∙ ok-injective low,
      ints_below a b (ok-injective high),
    )
