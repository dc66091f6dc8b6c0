-- ===== src/Report/Passed.antt =====
-- What the conditions on reports say of the values when they hold.
use artbox.Base.{
  ℕ, ◌||◌, Bool, true, false, String, List, [], ◌∷◌, Result, ok, err, ◌>>=◌, ◌≡◌, refl, inl, inr,
  Bool-cases, >>=-elim, ok-injective,
}
use artbox.Base.Int.{ℤ, pos, ltb_ℤ}
use artbox.Base.Text.{codes, ◌≟◌}
use artbox.Paths.Laws.{Every}
use artbox.Sources.Plan.{not-true}
use artbox.Report.Value.{
  Value, null, boolean, integer, fraction, text, array, object, item_of, get_of, is_true, is_false,
  truth, int_of,
}
use artbox.Report.Checks.{
  ◌and_then◌, check, item_true, item_false, get_untrue, all_positive, is_positive, or_incomplete,
}

pub and_then-true : (a b : Result Bool) → (a and_then b) ≡ ok true → (a ≡ ok true) × (b ≡ ok true)
and_then-true (err message) b h = cc
and_then-true (ok true) b h = (refl, h)
and_then-true (ok false) b h = cc

pub check-true : (c : Result Bool) (message : String) → check c message ≡ ok tt → c ≡ ok true
check-true (err raised) message h = cc
check-true (ok true) message h = refl
check-true (ok false) message h = cc

pub or_incomplete-ok :
    (message : String) (r : Result (Unit {0})) → or_incomplete message r ≡ ok tt → r ≡ ok tt
unfolding or_incomplete
or_incomplete-ok message (ok passed) h = refl
or_incomplete-ok message (err raised) h =
    elim (Bool-cases (codes raised ≟ codes "KeyError" || codes raised ≟ codes "TypeError")) [
      | inl caught ↦ cc (rw caught at h)
      | inr other ↦ cc (rw other at h)
    ]

pub is_true-eq : (v : Value) → is_true v ≡ true → v ≡ boolean true
unfolding is_true
is_true-eq (boolean true) h = refl
is_true-eq (boolean false) h = cc
is_true-eq null h = cc
is_true-eq (integer n) h = cc
is_true-eq (fraction n k) h = cc
is_true-eq (text cs) h = cc
is_true-eq (array members) h = cc
is_true-eq (object entries) h = cc

pub item_true-eq :
    (report : Value) (key : List ℕ)
    → item_true report key ≡ ok true
    → item_of report key ≡ ok (boolean true)
item_true-eq report key h =
    >>=-elim (item_of report key) h
      λ v read is. let e : v ≡ boolean true = is_true-eq v (ok-injective is) in rw e at read

pub is_false-eq : (v : Value) → is_false v ≡ true → v ≡ boolean false
unfolding is_false
is_false-eq (boolean false) h = refl
is_false-eq (boolean true) h = cc
is_false-eq null h = cc
is_false-eq (integer n) h = cc
is_false-eq (fraction n k) h = cc
is_false-eq (text cs) h = cc
is_false-eq (array members) h = cc
is_false-eq (object entries) h = cc

pub item_false-eq :
    (report : Value) (key : List ℕ)
    → item_false report key ≡ ok true
    → item_of report key ≡ ok (boolean false)
item_false-eq report key h =
    >>=-elim (item_of report key) h
      λ v read is. let e : v ≡ boolean false = is_false-eq v (ok-injective is) in rw e at read

-- An item that is a positive int.
abbrev pub IsPositive : Value → List ℕ → Type 0
IsPositive report key = (n : ℤ) × (item_of report key ≡ ok (integer n)) × (ltb_ℤ (pos 0) n ≡ true)

pub positive_value :
    (v : Value)
    → is_positive (int_of v) ≡ true
    → (n : ℤ) × (v ≡ integer n) × (ltb_ℤ (pos 0) n ≡ true)
unfolding int_of
positive_value (integer n) h = (n, refl, h)
positive_value (boolean b) h = cc
positive_value null h = cc
positive_value (fraction n k) h = cc
positive_value (text cs) h = cc
positive_value (array members) h = cc
positive_value (object entries) h = cc

pub all_positive-IsPositive :
    (report : Value) (keys : List (List ℕ))
    → all_positive report keys ≡ ok true
    → Every (IsPositive report) keys
unfolding all_positive
all_positive-IsPositive report [] h = tt
all_positive-IsPositive report (key ∷ keys) h =
    let (first, rest) =
      and_then-true (item_of report key >>= λ v. ok (is_positive (int_of v)))
        (all_positive report keys) h in
    (
      >>=-elim (item_of report key) first λ v read is.
          let (n, same, positive) = positive_value v (ok-injective is) in
          (n, rw same at read, positive),
      all_positive-IsPositive report keys rest,
    )

-- No time limit was hit.
abbrev pub IsInTime : Value → Type 0
IsInTime execution = (t : Value) × (get_of execution (codes "timeout") ≡ ok t) × (truth t ≡ false)

pub get_untrue-IsInTime :
    (execution : Value) → get_untrue execution (codes "timeout") ≡ ok true → IsInTime execution
get_untrue-IsInTime execution h =
    >>=-elim (get_of execution (codes "timeout")) h
      λ t read is. (t, read, not-true (ok-injective is))
