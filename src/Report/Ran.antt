-- ===== src/Report/Ran.antt =====
-- scripts/art_bundle.py: the reports that `validate_acceptance` accepts.
use artbox.Base.{true, false, ok, ◌≡◌, >>=-elim}
use artbox.Base.Int.{pos}
use artbox.Base.Text.{codes}
use artbox.Paths.Laws.{Every}
use artbox.Report.Value.{Value, boolean, integer, item_of}
use artbox.Report.Checks.{
  ◌and_then◌, check, all_get_true, get_untrue, item_is, item_is_number, all_positive,
}
use artbox.Report.Passed.{
  and_then-true, check-true, or_incomplete-ok, item_true-eq, item_false-eq, IsInTime,
  get_untrue-IsInTime,
}
use artbox.Report.Art.{
  observed, measured, thread_state, native_complete, memory_bounded, collected, worker_stacked,
  check_parts, validate_art,
}
use artbox.Report.Read.{
  IsObserved, all_get_true-IsObserved, IsEqual, item_is-IsEqual, IsOrdered, ordered_ints-IsOrdered,
}
use artbox.Report.Bounded.{IsBounded, native-IsBounded}

-- What is promised of a report.
pub record IsRan (report : Value) : Type 0 where
  pub all_observed : Every (IsObserved report) observed
  pub in_time : IsInTime report
  pub exited : IsEqual report (codes "exit") (integer (pos 0))
  pub missed : IsEqual report (codes "missing_hello_exit") (integer (pos 1))
  pub dropped : IsEqual report (codes "console_drop_exit") (integer (pos 3))
  pub native : Value
  pub native_read : item_of report (codes "native") ≡ ok native
  pub bounded : IsBounded native
  pub managed : Value
  pub managed_read : item_of report (codes "managed_checks") ≡ ok managed
  pub checksum : IsEqual managed (codes "heap_checksum") (integer (pos 6496))
  pub collection : IsOrdered managed (codes "gc_before") (codes "gc_after")
  pub threads : IsEqual report (codes "thread_state_checks") thread_state
  pub worker : Value
  pub worker_read : item_of report (codes "vm_worker") ≡ ok worker
  pub secondary : item_of worker (codes "primordial") ≡ ok (boolean false)
  pub on_stack : item_of worker (codes "current_in_stack") ≡ ok (boolean true)
  pub guarded : IsOrdered worker (codes "guard_bytes") (codes "reported_stack_bytes")

parts-IsRan :
    (report native managed worker : Value)
    → all_get_true report observed ≡ ok true
    → (get_untrue report (codes "timeout")
        and_then item_is_number report (codes "exit") 0
        and_then item_is_number report (codes "missing_hello_exit") 1
        and_then item_is_number report (codes "console_drop_exit") 3)
      ≡ ok true
    → item_of report (codes "native") ≡ ok native
    → item_of report (codes "managed_checks") ≡ ok managed
    → item_of report (codes "vm_worker") ≡ ok worker
    → check_parts report native managed worker ≡ ok tt
    → IsRan report
unfolding check_parts collected worker_stacked
parts-IsRan report native managed worker seen ran native_read managed_read worker_read e =
    >>=-elim (check (native_complete native) "ART native lifecycle is incomplete") e
      λ _ complete e₁.
        >>=-elim
          (check (all_positive native measured)
            "ART requires measured execution and worker cleanup")
          e₁
          λ _ measures e₂.
            >>=-elim
              (check (memory_bounded native)
                "ART requires bounded bootstrap, managed arena and total VM reservations")
              e₂
              λ _ bounded e₃.
                >>=-elim
                  (check (collected managed) "ART collection, exceptions or attachment failed") e₃
                  λ _ gc e₄.
                    >>=-elim
                      (check (item_is report (codes "thread_state_checks") thread_state)
                        "ART thread state failed")
                      e₄
                      λ _ threads e₅.
                        let (in_time, r₁) = and_then-true _ _ ran in
                        let (exited, r₂) = and_then-true _ _ r₁ in
                        let (missed, dropped) = and_then-true _ _ r₂ in
                        let (checksum, g₁) = and_then-true _ _ (check-true _ _ gc) in
                        let (_, g₂) = and_then-true _ _ g₁ in
                        let (_, g₃) = and_then-true _ _ g₂ in
                        let (before, g₄) = and_then-true _ _ g₃ in
                        let (after, order) = and_then-true _ _ g₄ in
                        let (primordial, w₁) = and_then-true _ _ (check-true _ _ e₅) in
                        let (current, w₂) = and_then-true _ _ w₁ in
                        let (_, w₃) = and_then-true _ _ w₂ in
                        let (stack, w₄) = and_then-true _ _ w₃ in
                        let (guard, stacked) = and_then-true _ _ w₄ in
                        record {
                          all_observed = all_get_true-IsObserved report observed seen;
                          in_time = get_untrue-IsInTime report in_time;
                          exited = item_is-IsEqual report (codes "exit") (integer (pos 0)) exited;
                          missed =
                              item_is-IsEqual report (codes "missing_hello_exit") (integer (pos 1))
                                missed;
                          dropped =
                              item_is-IsEqual report (codes "console_drop_exit") (integer (pos 3))
                                dropped;
                          native = native;
                          native_read = native_read;
                          bounded =
                              native-IsBounded native (check-true _ _ complete)
                                (check-true _ _ measures) (check-true _ _ bounded);
                          managed = managed;
                          managed_read = managed_read;
                          checksum =
                              item_is-IsEqual managed (codes "heap_checksum") (integer (pos 6496))
                                checksum;
                          collection =
                              ordered_ints-IsOrdered managed (codes "gc_before") (codes "gc_after")
                                before after order;
                          threads =
                              item_is-IsEqual report (codes "thread_state_checks") thread_state
                                (check-true _ _ threads);
                          worker = worker;
                          worker_read = worker_read;
                          secondary = item_false-eq worker (codes "primordial") primordial;
                          on_stack = item_true-eq worker (codes "current_in_stack") current;
                          guarded =
                              ordered_ints-IsOrdered worker (codes "guard_bytes")
                                (codes "reported_stack_bytes") guard stack stacked;
                        }

-- A report that `validate_acceptance` of the ART bundle accepts has all eight observations
-- `True`, no time limit hit, exits equal to 0, 1 and 3; the native part has 15 images, no
-- registered VM, its flags `True`, positive int measurements, and a positive int reservation at
-- most its budget, which equals 1,536 MiB; the collection numbers are ints in order, thread
-- states are equal to those expected, and the worker, not the first thread, has an int guard
-- below its int stack size.
pub validate_art-IsRan : (report : Value) → validate_art report ≡ ok tt → IsRan report
unfolding validate_art
validate_art-IsRan report e =
    >>=-elim
      (check (all_get_true report observed)
        "ART requires every managed, console and negative-control observation")
      (or_incomplete-ok "Incomplete ART acceptance report" _ e)
      λ _ seen e₁.
        >>=-elim
          (check
            (get_untrue report (codes "timeout")
              and_then item_is_number report (codes "exit") 0
              and_then item_is_number report (codes "missing_hello_exit") 1
              and_then item_is_number report (codes "console_drop_exit") 3)
            "ART process or missing-class control failed")
          e₁
          λ _ ran e₂. >>=-elim (item_of report (codes "native")) e₂ λ native native_read e₃.
            >>=-elim (item_of report (codes "managed_checks")) e₃ λ managed managed_read e₄.
              >>=-elim (item_of report (codes "vm_worker")) e₄ λ worker worker_read e₅.
                parts-IsRan report native managed worker
                  (check-true _
                    "ART requires every managed, console and negative-control observation" seen)
                  (check-true _ "ART process or missing-class control failed" ran) native_read
                  managed_read worker_read e₅
