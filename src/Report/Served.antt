-- ===== src/Report/Served.antt =====
-- scripts/service_bundle.py: the reports that `validate_acceptance` accepts.
use artbox.Base.{
  ℕ, Bool, true, false, Option, none, some, List, [], ◌∷◌, ok, ◌>>=◌, ◌≡◌, refl, ap, arith,
  >>=-elim, require-elim, ok-injective, and-eq-true,
}
use artbox.Base.Int.{ℤ, pos}
use artbox.Base.Text.{codes}
use artbox.Paths.Laws.{Every}
use artbox.Sources.Selection.{all_in}
use artbox.Report.Value.{Value, null, boolean, integer, fraction, text, array, object, item_of}
use artbox.Report.Checks.{◌and_then◌, check, item_true, item_false, get_untrue, all_positive}
use artbox.Report.Service.{
  cases, labels, set_of, same_set, Exact, number, flag, is_integer, is_flag, is_exactly, exact_of,
  all_exact, measurements, exit_is_zero, check_case, check_cases, validate_service,
}
use artbox.Report.Passed.{
  and_then-true, check-true, or_incomplete-ok, item_true-eq, item_false-eq, IsPositive,
  all_positive-IsPositive, IsInTime, get_untrue-IsInTime,
}

abbrev pub exact_value : Exact → Value
exact_value (number n) = integer n
exact_value (flag b) = boolean b

integer_value : (v : Value) (n : ℤ) → is_integer v n ≡ true → v ≡ integer n
integer_value (integer m) n h = let e : m ≡ n = ground arith in ap integer e
integer_value (boolean b) n h = cc
integer_value null n h = cc
integer_value (fraction m k) n h = cc
integer_value (text cs) n h = cc
integer_value (array members) n h = cc
integer_value (object entries) n h = cc

flag_value : (v : Value) (c : Bool) → is_flag v c ≡ true → v ≡ boolean c
flag_value (boolean true) true h = refl
flag_value (boolean false) false h = refl
flag_value (boolean true) false h = cc
flag_value (boolean false) true h = cc
flag_value (integer m) c h = cc
flag_value null c h = cc
flag_value (fraction m k) c h = cc
flag_value (text cs) c h = cc
flag_value (array members) c h = cc
flag_value (object entries) c h = cc

pub is_exactly-eq : (v : Value) (e : Exact) → is_exactly v e ≡ true → v ≡ exact_value e
unfolding is_exactly
is_exactly-eq v (number n) h = integer_value v n h
is_exactly-eq v (flag b) h = flag_value v b h

-- The items of `native` that are compared.
abbrev pub IsExact : Value → List ℕ × Exact → Type 0
IsExact native e = item_of native e.0 ≡ ok (exact_value e.1)

all_exact-IsExact :
    (native : Value) (es : List (List ℕ × Exact))
    → all_exact native es ≡ ok true
    → Every (IsExact native) es
unfolding all_exact
all_exact-IsExact native [] h = tt
all_exact-IsExact native (e ∷ es) h =
    let (first, rest) =
      and_then-true (item_of native e.0 >>= λ v. ok (is_exactly v e.1)) (all_exact native es) h in
    (
      >>=-elim (item_of native e.0) first
          λ v read is. rw (is_exactly-eq v e.1 (ok-injective is)) at read,
      all_exact-IsExact native es rest,
    )

-- What is promised of a case.
pub record IsCase (executions : Value) (c : List ℕ × ℤ) : Type 0 where
  pub execution : Value
  pub found : item_of executions c.0 ≡ ok execution
  pub in_time : IsInTime execution
  pub exited : item_of execution (codes "exit") ≡ ok (integer (pos 0))
  pub native : Value
  pub reported : item_of execution (codes "native") ≡ ok native
  pub exact : Every (IsExact native) (exact_of c.0 c.1)
  pub measured : Every (IsPositive native) measurements

check_case-IsCase :
    (executions : Value) (c : List ℕ × ℤ) → check_case executions c ≡ ok tt → IsCase executions c
unfolding check_case
check_case-IsCase executions c e = >>=-elim (item_of executions c.0) e λ execution found e₁.
    >>=-elim
      (check (get_untrue execution (codes "timeout") and_then exit_is_zero execution)
        "Service process failed")
      e₁
      λ _ ran e₂. >>=-elim (item_of execution (codes "native")) e₂ λ native reported e₃.
        >>=-elim (check (all_exact native (exact_of c.0 c.1)) "Service acceptance is incomplete") e₃
          λ _ complete e₄.
            let (in_time, zero_exit) =
              and_then-true (get_untrue execution (codes "timeout")) (exit_is_zero execution) (
                check-true (get_untrue execution (codes "timeout") and_then exit_is_zero execution)
                  "Service process failed" ran) in
            record {
              execution = execution;
              found = found;
              in_time = get_untrue-IsInTime execution in_time;
              exited =
                  >>=-elim (item_of execution (codes "exit")) zero_exit
                    λ v read is. rw (integer_value v (pos 0) (ok-injective is)) at read;
              native = native;
              reported = reported;
              exact = all_exact-IsExact native (exact_of c.0 c.1) (
                  check-true (all_exact native (exact_of c.0 c.1))
                    "Service acceptance is incomplete" complete);
              measured = all_positive-IsPositive native measurements (
                  check-true (all_positive native measurements) "Service measurements are missing"
                    e₄);
            }

check_cases-IsCase :
    (executions : Value) (cs : List (List ℕ × ℤ))
    → check_cases executions cs ≡ ok tt
    → Every (IsCase executions) cs
unfolding check_cases
check_cases-IsCase executions [] e = tt
check_cases-IsCase executions (c ∷ cs) e =
    >>=-elim (check_case executions c) e
      λ _ first rest. (check_case-IsCase executions c first, check_cases-IsCase executions cs rest)

-- What is promised of a report.
pub record IsServed (report : Value) : Type 0 where
  pub verified : item_of report (codes "guest_execution_verified") ≡ ok (boolean true)
  pub clean : item_of report (codes "working_tree_dirty") ≡ ok (boolean false)
  pub executions : Value
  pub found : item_of report (codes "executions") ≡ ok executions
  pub names : List (List ℕ)
  pub named : set_of executions ≡ ok (some names)
  pub known : all_in names (labels cases) ≡ true
  pub every : all_in (labels cases) names ≡ true
  pub each : Every (IsCase executions) cases

same_set-facts :
    (expected : List (List ℕ)) (o : Option (List (List ℕ)))
    → same_set expected o ≡ true
    → (names : List (List ℕ)) × (o ≡ some names)
      × (all_in names expected ≡ true)
      × (all_in expected names ≡ true)
same_set-facts expected none h = cc
same_set-facts expected (some names) h =
    let (known, every) = and-eq-true (all_in names expected) (all_in expected names) h in
    (names, refl, known, every)

-- A report that `validate_acceptance` of the service bundle accepts was verified from clean
-- inputs and has exactly the four cases as executions; each of them hit no time limit, exited
-- with the int 0, has the exact int and Boolean items of its case in its native part, and two
-- measurements that are positive ints.
pub validate_service-IsServed : (report : Value) → validate_service report ≡ ok tt → IsServed report
unfolding validate_service
validate_service-IsServed report e =
    >>=-elim
      (check
        (item_true report (codes "guest_execution_verified")
          and_then item_false report (codes "working_tree_dirty"))
        "Service requires successful execution from clean inputs")
      (or_incomplete-ok "Incomplete service acceptance report" _ e)
      λ _ started e₁. >>=-elim (item_of report (codes "executions")) e₁ λ executions found e₂.
        >>=-elim (set_of executions) e₂ λ o collected e₃.
          require-elim (same_set (labels cases) o)
            "Service requires all policy controls and native roles" e₃
            λ same e₄.
              let (names, is, known, every) = same_set-facts (labels cases) o same in
              let (verified, clean) =
                and_then-true (item_true report (codes "guest_execution_verified"))
                  (item_false report (codes "working_tree_dirty"))
                  (check-true
                    (item_true report (codes "guest_execution_verified")
                      and_then item_false report (codes "working_tree_dirty"))
                    "Service requires successful execution from clean inputs" started) in
              record {
                verified = item_true-eq report (codes "guest_execution_verified") verified;
                clean = item_false-eq report (codes "working_tree_dirty") clean;
                executions = executions;
                found = found;
                names = names;
                named = rw is at collected;
                known = known;
                every = every;
                each = check_cases-IsCase executions cases e₄;
              }
