-- ===== src/Report/Signed.antt =====
-- scripts/looper_guest.py and scripts/kernel_config_guest.py: the results of signed guests that are
-- accepted, and the build that the kernel-config parser must come from.
use artbox.Base.{
  ℕ, ◌&&◌, if◌then◌else◌, Bool, true, false, Option, none, some, String, List, [], ◌∷◌, Result, ok,
  err, require, ◌>>=◌, ◌>>◌,
}
use artbox.Base.Int.{ℤ, pos, negsuc}
use artbox.Base.Text.{codes, ◌≟◌}
use artbox.Paths.{join}
use artbox.Report.Value.{
  Value, null, boolean, integer, fraction, text, array, object, Fields, no_fields, field, item_of,
  get_of, is_text, int_of, same_value,
}
use artbox.Report.Checks.{◌and_then◌, check, item_false, item_is, is_positive, is_some_int}
use artbox.Report.Service.{Exact, number, flag, is_exactly, set_of, same_set}

-- `value.values()`
unfoldable pub values_of : Value → Result Fields
values_of (object entries) = ok entries
values_of null = err "AttributeError"
values_of (boolean b) = err "AttributeError"
values_of (integer n) = err "AttributeError"
values_of (fraction n k) = err "AttributeError"
values_of (text cs) = err "AttributeError"
values_of (array members) = err "AttributeError"

-- `not any(type(value) is not int for value in ...)`
unfoldable pub all_ints : Fields → Bool
all_ints no_fields = true
all_ints (field key value rest) = is_some_int (int_of value) && all_ints rest

abbrev pub only_ints : Value → Result Bool
only_ints value = values_of value >>= λ entries. ok (all_ints entries)

-- `exact`, which differs in the threads that are reaped.
abbrev pub ownership : ℤ → List (List ℕ × Exact)
ownership threads =
    (codes "tls_modules", number (pos 1))
    ∷ (codes "linked_images", number (pos 5))
    ∷ (codes "registered_vms", number (pos 0))
    ∷ (codes "heap_binding_verified", flag true)
    ∷ (codes "sigchain_cases", number (pos 22))
    ∷ (codes "sigchain_mutation", number (negsuc 1004))
    ∷ (codes "runtime_started", flag false)
    ∷ (codes "dex_executed", flag false)
    ∷ (codes "threads_reaped", number threads)
    ∷ (codes "cleanup", flag true)
    ∷ []

unfoldable pub all_get_exact : Value → List (List ℕ × Exact) → Result Bool
all_get_exact result [] = ok true
all_get_exact result (e ∷ es) =
    (get_of result e.0 >>= λ v. ok (is_exactly v e.1)) and_then all_get_exact result es

abbrev pub timings : String → List (List ℕ)
timings own =
    codes "constructors" ∷ codes own ∷ codes "load_relocate_ns" ∷ codes "bootstrap_ns" ∷ []

unfoldable pub all_get_positive : Value → List (List ℕ) → Result Bool
all_get_positive result [] = ok true
all_get_positive result (key ∷ keys) =
    (get_of result key >>= λ v. ok (is_positive (int_of v))) and_then all_get_positive result keys

-- The checks after the contract.
unfoldable pub check_owned : Value → ℤ → String → Result (Unit {0})
check_owned result threads own = do
  check (all_get_exact result (ownership threads)) "Incomplete signed ownership or cleanup"
  check (all_get_positive result (timings own)) "Missing signed execution observation"

abbrev pub signed_entry : String → ℤ → Fields → Fields
signed_entry key n rest = field (codes key) (integer n) rest

-- A row of `EXPECTED` of scripts/looper_guest.py.
abbrev pub looper_row : ℤ → ℤ → ℤ → ℤ → ℤ → ℤ → ℤ → Value
looper_row status cases failure wakes messages descriptors timers = object (
    signed_entry "status" status (
      signed_entry "cases" cases (
        signed_entry "failure" failure (
          signed_entry "wake_threads" wakes (
            signed_entry "message_calls" messages (
              signed_entry "fd_callbacks" descriptors
                (signed_entry "timer_callbacks" timers no_fields)))))))

unfoldable pub looper_expected : List ℕ → Option Value
looper_expected name =
    if name ≟ codes "normal"
    then some (looper_row (pos 0) (pos 43) (pos 0) (pos 1) (pos 3) (pos 1) (pos 1))
    else if name ≟ codes "retain-callback"
    then some (looper_row (negsuc 204) (pos 17) (pos 205) (pos 1) (pos 0) (pos 1) (pos 0))
    else if name ≟ codes "omit-wake"
    then some (looper_row (negsuc 108) (pos 10) (pos 109) (pos 0) (pos 0) (pos 0) (pos 0))
    else none

abbrev pub looper_exit : List ℕ → Value
looper_exit name = integer (pos (if name ≟ codes "normal" then 0 else 1))

unfoldable pub check_looper : List ℕ → Value → Value → Option Value → Result Value
check_looper name exit result none = err "Unknown Looper control"
check_looper name exit result (some expected) = do
  seen ← get_of result (codes "looper")
  check
      (ok (same_value exit (looper_exit name))
        and_then (ok (same_value seen expected) and_then only_ints seen))
      "Signed Looper differs from the shared native contract"
  check_owned result (pos 1) "looper_check_ns"
  ok result

-- `verify_result` of scripts/looper_guest.py
unfoldable pub verify_looper : List ℕ → Value → Value → Result Value
verify_looper name exit result = check_looper name exit result (looper_expected name)

-- `EXPECTED` of scripts/kernel_config_guest.py
abbrev pub kernel_expected : Value
kernel_expected = object (
    signed_entry "cases" (pos 89) (
      signed_entry "comments_control" (negsuc 103)
        (signed_entry "relaxed_control" (negsuc 104) no_fields)))

-- `verify_contract`
unfoldable pub verify_contract : Value → Value → Result (Unit {0})
verify_contract exit result =
    check
      (ok (is_exactly exit (number (pos 0)))
        and_then (ok (same_value result kernel_expected) and_then only_ints result))
      "Parser differs from the shared positive and negative contract"

-- `verify_guest`
unfoldable pub verify_kernel_guest : Value → Value → Result (Unit {0})
verify_kernel_guest exit result = do
  parsed ← get_of result (codes "kernel_config")
  verify_contract exit parsed
  check_owned result (pos 0) "kernel_config_check_ns"

-- `reference.get(own) == build[key]`
abbrev pub same_entry : Value → String → Value → String → Result Bool
same_entry reference own build key =
    get_of reference (codes own) >>= λ a. item_of build (codes key) >>= λ b. ok (same_value a b)

-- `verify_reference`
unfoldable pub verify_kernel_reference : Value → Value → List ℕ → Result (Unit {0})
verify_kernel_reference reference build build_sha256 = do
  check
      ((get_of reference (codes "native_linux_execution_verified") >>= λ v.
          ok (is_exactly v (flag true)))
        and_then (same_entry reference "project_commit" build "project_commit"
            and_then ((get_of reference (codes "build_result_sha256") >>= λ v.
                  ok (is_text build_sha256 v))
                and_then (same_entry reference "objects" build "objects"
                    and_then (same_entry reference "reference_sha256" build "reference_sha256"
                        and_then same_entry reference "source_bundle_sha256" build
                            "source_bundle_sha256")))))
      "Signed parser requires execution of the identical Linux caller and dependencies"
  exit ← get_of reference (codes "exit")
  native ← get_of reference (codes "native")
  verify_contract exit native

-- `OBJECTS`
abbrev pub kernel_objects : List (List ℕ)
kernel_objects =
    codes "check.o"
    ∷ codes "KernelConfigParser.o"
    ∷ codes "regex.cpp.o"
    ∷ codes "reference-main.o"
    ∷ []

-- The digest of a path, nothing where it is not a file.
module _ (digest_of : List ℕ → Option (List ℕ)) where
  abbrev pub is_digest : Option (List ℕ) → Value → Bool
  is_digest none expected = false
  is_digest (some found) expected = is_text found expected

  -- `verify`
  unfoldable pub verify_input : List ℕ → Value → Result (Unit {0})
  verify_input path expected =
      require (is_digest (digest_of path) expected) "Kernel-config input differs from its producer"

  -- `for name, expected in entries.items(): verify(directory / name, expected)`
  unfoldable pub verify_inputs : List ℕ → Fields → Result (Unit {0})
  verify_inputs directory no_fields = ok tt
  verify_inputs directory (field name expected rest) = do
    verify_input (join directory name) expected
    verify_inputs directory rest

  -- The end of `verify_build`.
  unfoldable pub finish_kernel_build : List ℕ → Value → Value → Result Value
  finish_kernel_build directory build objects = do
    member ← item_of objects (codes "regex.cpp.o")
    runtime ← item_of build (codes "regex_runtime")
    pinned ← item_of runtime (codes "member_sha256")
    require (same_value member pinned) "Parser regex object differs from reviewed archive member"
    caller ← item_of build (codes "reference_sha256")
    verify_input (join directory (codes "linux-reference")) caller
    bundle ← item_of build (codes "source_bundle_sha256")
    verify_input (join directory (codes "corresponding-source.zip")) bundle
    ok build

  -- `verify_build`
  unfoldable pub verify_kernel_build :
      (List ℕ → Result Value) → List ℕ → List ℕ → List ℕ → Result Value
  verify_kernel_build read root directory revision = do
    build ← read (join directory (codes "result.json"))
    check
        (item_is build (codes "project_commit") (text revision)
          and_then (item_false build (codes "working_tree_dirty")
              and_then ((item_of build (codes "objects") >>= λ v.
                    set_of v >>= λ names. ok (same_set kernel_objects names))
                  and_then (item_of build (codes "regex_runtime") >>= λ v.
                      read (join root (codes "third_party/binder/regex-runtime.json")) >>= λ pin.
                      ok (same_value v pin)))))
        "Require the current clean Android parser and pinned regex object"
    sources ← item_of build (codes "project_sources") >>= values_of
    verify_inputs root sources
    objects ← item_of build (codes "objects")
    entries ← values_of objects
    verify_inputs directory entries
    finish_kernel_build directory build objects
