-- ===== src/Report/Bounded.antt =====
-- scripts/art_bundle.py: the native part of a report that `validate_acceptance` accepts.
use artbox.Base.{ℕ, ◌*◌, true, ok, ◌>>=◌, ◌≡◌, >>=-elim, ok-injective}
use artbox.Base.Int.{ℤ, pos, ltb_ℤ}
use artbox.Base.Text.{codes}
use artbox.Paths.Laws.{Every}
use artbox.Report.Value.{Value, integer, item_of, number_of, at_most, below_number}
use artbox.Report.Checks.{◌and_then◌, item_number, all_positive}
use artbox.Report.Passed.{and_then-true, IsPositive, all_positive-IsPositive}
use artbox.Report.Art.{native_flags, measured, mebibyte, reserves, native_complete, memory_bounded}
use artbox.Report.Read.{
  IsFlagged, all_item_true-IsFlagged, IsEqual, item_is-IsEqual, item_int-eq, ints_below,
}

-- What is promised of `native`.
pub record IsBounded (native : Value) : Type 0 where
  pub images : IsEqual native (codes "linked_images") (integer (pos 15))
  pub no_vms : IsEqual native (codes "registered_vms") (integer (pos 0))
  pub flags : Every (IsFlagged native) native_flags
  pub measures : Every (IsPositive native) measured
  pub reserved : ℤ
  pub reserves_int : item_of native (codes "reserved_bytes") ≡ ok (integer reserved)
  pub some_reserved : ltb_ℤ (pos 0) reserved ≡ true
  pub within :
      (b : ℤ × ℕ) × (item_number native (codes "vm_budget_bytes") ≡ ok b)
      × (at_most (reserved, 0) b ≡ true)
  pub budget : IsEqual native (codes "vm_budget_bytes") (integer (pos (1536 * mebibyte)))
  pub window : IsEqual native (codes "managed_window_bytes") (integer (pos (512 * mebibyte)))

reserves-facts :
    (native : Value) (n : ℤ)
    → item_of native (codes "reserved_bytes") ≡ ok (integer n)
    → reserves native ≡ ok true
    → (ltb_ℤ (pos 0) n ≡ true)
      × ((b : ℤ × ℕ) × (item_number native (codes "vm_budget_bytes") ≡ ok b)
          × (at_most (n, 0) b ≡ true))
unfolding reserves number_of
reserves-facts native n read h =
    let whole : (ok (below_number (pos 0, 0) (n, 0))
          and_then (item_number native (codes "vm_budget_bytes") >>= λ b. ok (at_most (n, 0) b)))
        ≡ ok true =
      rw read at h in
    let (low, high) = and_then-true _ _ whole in
    (
      ints_below (pos 0) n (ok-injective low),
      >>=-elim (item_number native (codes "vm_budget_bytes")) high
          λ b found is. (b, found, ok-injective is),
    )

pub native-IsBounded :
    (native : Value)
    → native_complete native ≡ ok true
    → all_positive native measured ≡ ok true
    → memory_bounded native ≡ ok true
    → IsBounded native
unfolding native_complete memory_bounded
native-IsBounded native complete measures bounded =
    let (images, c₁) = and_then-true _ _ complete in
    let (_, c₂) = and_then-true _ _ c₁ in
    let (_, c₃) = and_then-true _ _ c₂ in
    let (vms, flags) = and_then-true _ _ c₃ in
    let (whole, b₁) = and_then-true _ _ bounded in
    let (budget, b₂) = and_then-true _ _ b₁ in
    let (reserving, b₃) = and_then-true _ _ b₂ in
    let (_, window) = and_then-true _ _ b₃ in
    let (n, read) = item_int-eq native (codes "reserved_bytes") whole in
    let (used, within) = reserves-facts native n read reserving in
    record {
      images = item_is-IsEqual native (codes "linked_images") (integer (pos 15)) images;
      no_vms = item_is-IsEqual native (codes "registered_vms") (integer (pos 0)) vms;
      flags = all_item_true-IsFlagged native native_flags flags;
      measures = all_positive-IsPositive native measured measures;
      reserved = n;
      reserves_int = read;
      some_reserved = used;
      within = within;
      budget =
          item_is-IsEqual native (codes "vm_budget_bytes") (integer (pos (1536 * mebibyte))) budget;
      window =
          item_is-IsEqual native (codes "managed_window_bytes") (integer (pos (512 * mebibyte)))
            window;
    }
