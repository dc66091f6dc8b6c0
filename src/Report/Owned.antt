-- ===== src/Report/Owned.antt =====
-- scripts/looper_guest.py and scripts/kernel_config_guest.py: what holds of the results, references and
-- builds that are accepted.
use artbox.Base.{
  ℕ, true, Option, none, some, String, List, [], ◌∷◌, ok, ◌>>=◌, ◌≡◌, refl, sym, >>=-elim,
  ok-injective,
}
use artbox.Base.Int.{ℤ, pos, ltb_ℤ}
use artbox.Base.Text.{codes}
use artbox.Paths.Laws.{Every}
use artbox.Report.Value.{Value, integer, get_of, int_of, same_value}
use artbox.Report.Checks.{◌and_then◌, check, is_positive}
use artbox.Report.Service.{Exact, number, is_exactly}
use artbox.Report.Served.{exact_value, is_exactly-eq}
use artbox.Report.Passed.{and_then-true, check-true, positive_value}
use artbox.Report.Signed.{
  only_ints, ownership, all_get_exact, timings, all_get_positive, check_owned, looper_expected,
  looper_exit, check_looper, verify_looper, kernel_expected, verify_contract, verify_kernel_guest,
}

all_get_exact-Every :
    (result : Value) (es : List (List ℕ × Exact))
    → all_get_exact result es ≡ ok true
    → Every (λ e. get_of result e.0 ≡ ok (exact_value e.1)) es
unfolding all_get_exact
all_get_exact-Every result [] h = tt
all_get_exact-Every result (e ∷ es) h =
    let (first, rest) =
      and_then-true (get_of result e.0 >>= λ v. ok (is_exactly v e.1)) (all_get_exact result es)
        h in
    (
      >>=-elim (get_of result e.0) first
          λ v read is. rw (is_exactly-eq v e.1 (ok-injective is)) at read,
      all_get_exact-Every result es rest,
    )

-- A positive int under a key.
abbrev pub IsObserved : Value → List ℕ → Type 0
IsObserved result key = (n : ℤ) × (get_of result key ≡ ok (integer n)) × (ltb_ℤ (pos 0) n ≡ true)

all_get_positive-Every :
    (result : Value) (keys : List (List ℕ))
    → all_get_positive result keys ≡ ok true
    → Every (IsObserved result) keys
unfolding all_get_positive
all_get_positive-Every result [] h = tt
all_get_positive-Every result (key ∷ keys) h =
    let (first, rest) =
      and_then-true (get_of result key >>= λ v. ok (is_positive (int_of v)))
        (all_get_positive result keys) h in
    (
      >>=-elim (get_of result key) first λ v read is.
          let (n, same, positive) = positive_value v (ok-injective is) in
          (n, rw same at read, positive),
      all_get_positive-Every result keys rest,
    )

-- The guest has given back what it owned and measured its run.
pub record IsOwned (result : Value) (threads : ℤ) (own : String) : Type 0 where
  pub exact : Every (λ e. get_of result e.0 ≡ ok (exact_value e.1)) (ownership threads)
  pub measured : Every (IsObserved result) (timings own)

check_owned-IsOwned :
    (result : Value) (threads : ℤ) (own : String)
    → check_owned result threads own ≡ ok tt
    → IsOwned result threads own
unfolding check_owned
check_owned-IsOwned result threads own e =
    >>=-elim
      (check (all_get_exact result (ownership threads)) "Incomplete signed ownership or cleanup") e
      λ _ exact measured. record {
        exact = all_get_exact-Every result (ownership threads) (
            check-true (all_get_exact result (ownership threads))
              "Incomplete signed ownership or cleanup" exact);
        measured = all_get_positive-Every result (timings own) (
            check-true (all_get_positive result (timings own))
              "Missing signed execution observation" measured);
      }

-- What an accepted result of the Looper guest says.
pub record IsLooper (name : List ℕ) (exit result : Value) : Type 0 where
  pub expected : Value
  pub listed : looper_expected name ≡ some expected
  pub seen : Value
  pub reported : get_of result (codes "looper") ≡ ok seen
  pub exited : same_value exit (looper_exit name) ≡ true
  pub same : same_value seen expected ≡ true
  pub ints : only_ints seen ≡ ok true
  pub owned : IsOwned result (pos 1) "looper_check_ns"

check_looper-IsLooper :
    (name : List ℕ) (exit result returned : Value) (o : Option Value)
    → looper_expected name ≡ o
    → check_looper name exit result o ≡ ok returned
    → (returned ≡ result) × IsLooper name exit result
unfolding check_looper
check_looper-IsLooper name exit result returned none listed e = cc
check_looper-IsLooper name exit result returned (some expected) listed e =
    >>=-elim (get_of result (codes "looper")) e λ seen reported e₁.
      let condition =
        ok (same_value exit (looper_exit name))
        and_then (ok (same_value seen expected) and_then only_ints seen) in
      let message : String = "Signed Looper differs from the shared native contract" in
      >>=-elim (check condition message) e₁ λ _ checked e₂.
        >>=-elim (check_owned result (pos 1) "looper_check_ns") e₂ λ _ owned e₃.
          let (exited, rest) = and_then-true _ _ (check-true condition message checked) in
          let (same, ints) = and_then-true _ _ rest in
          (
            sym (ok-injective e₃),
            record {
              expected = expected;
              listed = listed;
              seen = seen;
              reported = reported;
              exited = ok-injective exited;
              same = ok-injective same;
              ints = ints;
              owned = check_owned-IsOwned result (pos 1) "looper_check_ns" owned;
            },
          )

-- If `verify_result` of the Looper guest returns, then the result that it was given, for one of
-- the three known names; the exit equals that of the name, the Looper part of the result equals
-- the row of the name and has only ints, each of the ten ownership items has exactly its value
-- and type, with one thread reaped, and the four timings are positive ints.
pub verify_looper-IsLooper :
    (name : List ℕ) (exit result returned : Value)
    → verify_looper name exit result ≡ ok returned
    → (returned ≡ result) × IsLooper name exit result
unfolding verify_looper
verify_looper-IsLooper name exit result returned e =
    check_looper-IsLooper name exit result returned (looper_expected name) refl e

-- The parser's contract: exit 0 and the three counts, as ints.
pub record IsContract (exit result : Value) : Type 0 where
  pub exited : exit ≡ integer (pos 0)
  pub same : same_value result kernel_expected ≡ true
  pub ints : only_ints result ≡ ok true

pub verify_contract-IsContract :
    (exit result : Value) → verify_contract exit result ≡ ok tt → IsContract exit result
unfolding verify_contract
verify_contract-IsContract exit result e =
    let (exited, rest) =
      and_then-true (ok (is_exactly exit (number (pos 0))))
        (ok (same_value result kernel_expected) and_then only_ints result)
        (check-true _ "Parser differs from the shared positive and negative contract" e) in
    let (same, ints) = and_then-true _ _ rest in
    record {
      exited = is_exactly-eq exit (number (pos 0)) (ok-injective exited);
      same = ok-injective same;
      ints = ints;
    }

-- A signed guest that meets the contract and has given back what it owned.
abbrev pub IsKernelGuest : Value → Value → Type 0
IsKernelGuest exit result =
    (parsed : Value) × (get_of result (codes "kernel_config") ≡ ok parsed)
    × IsContract exit parsed
    × IsOwned result (pos 0) "kernel_config_check_ns"

verify_kernel_guest-IsKernelGuest :
    (exit result : Value) → verify_kernel_guest exit result ≡ ok tt → IsKernelGuest exit result
unfolding verify_kernel_guest
verify_kernel_guest-IsKernelGuest exit result e =
    >>=-elim (get_of result (codes "kernel_config")) e λ parsed reported e₁.
      >>=-elim (verify_contract exit parsed) e₁ λ _ contract owned. (
        parsed,
        reported,
        verify_contract-IsContract exit parsed contract,
        check_owned-IsOwned result (pos 0) "kernel_config_check_ns" owned,
      )
