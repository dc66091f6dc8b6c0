-- ===== src/Report/Art.antt =====
-- scripts/art_bundle.py: `validate_acceptance`.
use artbox.Base.{ℕ, ◌*◌, ◌||◌, Bool, true, List, [], ◌∷◌, Result, ok, ◌>>=◌, ◌>>◌}
use artbox.Base.Int.{pos}
use artbox.Base.Text.{codes}
use artbox.Report.Value.{
  Value, boolean, integer, object, no_fields, field, item_of, at_most, same_value, below_number,
}
use artbox.Report.Checks.{
  ◌and_then◌, check, all_get_true, item_true, item_false, all_item_true, get_untrue, item_is,
  item_is_number, item_number, item_at_least, item_int, all_positive, or_incomplete,
}

abbrev pub observed : List (List ℕ)
observed =
    codes "passed"
    ∷ codes "runtime_invocation_attempted"
    ∷ codes "runtime_started"
    ∷ codes "dex_executed"
    ∷ codes "lifecycle_verified"
    ∷ codes "console_verified"
    ∷ codes "console_drop_detected"
    ∷ codes "missing_hello_detected"
    ∷ []

abbrev pub native_flags : List (List ℕ)
native_flags =
    codes "cleanup"
    ∷ codes "heap_binding_verified"
    ∷ codes "runtime_started"
    ∷ codes "dex_executed"
    ∷ []

abbrev pub measured : List (List ℕ)
measured =
    codes "startup_ns"
    ∷ codes "managed_bytes"
    ∷ codes "process_peak_rss_bytes"
    ∷ codes "threads_reaped"
    ∷ []

abbrev pub mebibyte : ℕ
mebibyte = 1048576

-- `0 <= a[first] < a[second]`, where both are int.
unfoldable pub ordered_ints : Value → List ℕ → List ℕ → Result Bool
ordered_ints report first second = item_number report first >>= λ a.
    ok (at_most (pos 0, 0) a) and_then (item_number report second >>= λ b. ok (below_number a b))

-- `0 < native['reserved_bytes'] <= native['vm_budget_bytes']`
unfoldable pub reserves : Value → Result Bool
reserves native = item_number native (codes "reserved_bytes") >>= λ a.
    ok (below_number (pos 0, 0) a)
    and_then (item_number native (codes "vm_budget_bytes") >>= λ b. ok (at_most a b))

-- `native['bootstrap_window_bytes'] in (16384, 65536, 262144)`
unfoldable pub has_window : Value → Result Bool
has_window native = item_of native (codes "bootstrap_window_bytes") >>= λ v. ok (
    same_value v (integer (pos 16384))
    || same_value v (integer (pos 65536))
    || same_value v (integer (pos 262144)))

abbrev pub thread_state : Value
thread_state = object (
    field (codes "threads") (integer (pos 3)) (
      field (codes "attach_cycles") (integer (pos 4)) (
        field (codes "tls_isolated") (boolean true)
          (field (codes "main_tls_restored") (boolean true) no_fields))))

unfoldable pub native_complete : Value → Result Bool
native_complete native =
    item_is_number native (codes "linked_images") 15
    and_then item_at_least native (codes "constructors") 35
    and_then item_at_least native (codes "tls_modules") 1
    and_then item_is_number native (codes "registered_vms") 0
    and_then all_item_true native native_flags

unfoldable pub memory_bounded : Value → Result Bool
memory_bounded native =
    item_int native (codes "reserved_bytes")
    and_then item_is_number native (codes "vm_budget_bytes") (1536 * mebibyte)
    and_then reserves native
    and_then has_window native
    and_then item_is_number native (codes "managed_window_bytes") (512 * mebibyte)

unfoldable pub collected : Value → Result Bool
collected managed =
    item_is_number managed (codes "heap_checksum") 6496
    and_then item_is_number managed (codes "exceptions") 3
    and_then item_is_number managed (codes "attachments") 4
    and_then item_int managed (codes "gc_before")
    and_then item_int managed (codes "gc_after")
    and_then ordered_ints managed (codes "gc_before") (codes "gc_after")

unfoldable pub worker_stacked : Value → Result Bool
worker_stacked worker =
    item_false worker (codes "primordial")
    and_then item_true worker (codes "current_in_stack")
    and_then item_is_number worker (codes "requested_stack_bytes") (4 * mebibyte)
    and_then item_int worker (codes "reported_stack_bytes")
    and_then item_int worker (codes "guard_bytes")
    and_then ordered_ints worker (codes "guard_bytes") (codes "reported_stack_bytes")

-- The checks that read `native`, `managed` and `worker`.
unfoldable pub check_parts : Value → Value → Value → Value → Result (Unit {0})
check_parts report native managed worker = do
  check (native_complete native) "ART native lifecycle is incomplete"
  check (all_positive native measured) "ART requires measured execution and worker cleanup"
  check (memory_bounded native)
      "ART requires bounded bootstrap, managed arena and total VM reservations"
  check (collected managed) "ART collection, exceptions or attachment failed"
  check (item_is report (codes "thread_state_checks") thread_state) "ART thread state failed"
  check (worker_stacked worker) "ART worker stack failed"

unfoldable pub validate_art : Value → Result (Unit {0})
validate_art report = or_incomplete "Incomplete ART acceptance report" (do
  check (all_get_true report observed)
      "ART requires every managed, console and negative-control observation"
  check
      (get_untrue report (codes "timeout")
        and_then item_is_number report (codes "exit") 0
        and_then item_is_number report (codes "missing_hello_exit") 1
        and_then item_is_number report (codes "console_drop_exit") 3)
      "ART process or missing-class control failed"
  native ← item_of report (codes "native")
  managed ← item_of report (codes "managed_checks")
  worker ← item_of report (codes "vm_worker")
  check_parts report native managed worker)
