-- ===== src/Reference/Native.antt =====
-- scripts/binder_reference.py: the body of `run_native` and its cleanup.
use artbox.Base.{
  ℕ, zero, suc, ◌+◌, ◌&&◌, ◌||◌, not, if◌then◌else◌, Bool, true, false, Option, none, some, String,
  List, [], ◌∷◌, ◌++◌, Result, ok, err,
}
use artbox.Base.Int.{ℤ}
use artbox.Base.Text.{codes, ◌≟◌}
use artbox.Paths.{is_nil}
use artbox.Report.Value.{Value, same_value}
use artbox.Shell.{
  Act, ◌>>=◌, ◌>>◌, give, demand, change, try_finally, Ran, is_zero, strip, first_word, join_texts,
  log_entry,
}
use artbox.Reference.{
  Spec, Tools, tools_of, Invocation, Places, place_in, words, executable_of, History, State, no_run,
  Evidence, count_checks, less_one, expected_native, expected_unload,
}

-- What is outside: answers to commands, reads of files and of the reference count, each by what was
-- asked before, and the facts about the host.
pub record Host : Type 0 where
  pub system : List ℕ
  pub release : List ℕ
  pub machine : List ℕ
  pub which : List ℕ → Option (List ℕ)
  pub module_there : History → Bool
  pub mount_alias : Bool
  pub mount_occupied : Bool
  pub respond : History → List (List ℕ) → Result Ran
  pub read_text : List ℕ → Result (List ℕ)
  pub read_refcount : History → ℕ → Result ℤ
  pub digest_of : List ℕ → Result (List ℕ)
  pub rounds : ℕ

module _ (is_word : ℕ → Bool) (parse : List ℕ → Result Value) (host : Host) (spec : Spec)
    (tools : Tools) (places : Places) where
  abbrev pub finish_call : State → Invocation → Result Ran → State × Result (List ℕ)
  finish_call s call (err message) =
      (record s { history = (call, err message) ∷ s.history }, err message)
  finish_call s call (ok ran) = (
    record s {
      history = (call, ok ran) ∷ s.history;
      logs = s.logs ++ log_entry (words spec tools places call) ran ∷ [];
    },
    if is_zero ran.code then ok ran.out else err "Native reference command failed",
  )

  -- `invoke`
  unfoldable pub invoke : Invocation → Act State (List ℕ)
  invoke call s = finish_call s call (host.respond s.history (words spec tools places call))

  -- `int(refcount.read_text())`
  unfoldable pub refcount : Act State ℤ
  refcount s = (record s { reads = s.reads + 1 }, host.read_refcount s.history s.reads)

  -- The loop that waits, with the rounds that begin before the deadline.
  unfoldable pub wait_released : ℕ → Act State (Unit {0})
  wait_released zero = do _ ← refcount; give (ok tt)
  wait_released (suc rounds) = do
    count ← refcount
    if is_zero count then give (ok tt) else wait_released rounds

  abbrev pub is_there : Act State Bool
  is_there s = (s, ok (host.module_there s.history))

  -- `if loaded`
  unfoldable pub release_module : Bool → Act State (Option Value)
  release_module false = give (ok none)
  release_module true = do
    wait_released host.rounds
    count ← refcount
    demand (is_zero count) "Binder device/mount references remain after private context cleanup"
    answer ← invoke Invocation.probe
    unload ← give (parse answer)
    there ← is_there
    demand (same_value unload expected_unload && there)
        "Pinned module unload behavior differs from its missing exit hook"
    give (ok (some unload))

  -- `if mounted`
  unfoldable pub unmount : Bool → Act State (Unit {0})
  unmount false = give (ok tt)
  unmount true = do _ ← invoke Invocation.umount; give (ok tt)

  abbrev pub clean_parts : Act State (Option Value)
  clean_parts s = (unmount s.mounted >> (λ after. release_module after.loaded after)) s

  abbrev pub write_log : Act State (Unit {0})
  write_log s = (record s { log = some (join_texts (10 ∷ []) s.logs) }, ok tt)

  -- The outer `finally`.
  unfoldable pub clean_up : Act State (Option Value)
  clean_up = try_finally (λ unload written. unload) clean_parts write_log

  abbrev pub count_fixture : String → Act State ℤ
  count_fixture fixture = do
    text ← give (host.read_text (place_in places.root fixture))
    give (ok (less_one (count_checks is_word false text)))

  abbrev pub load_module : Act State (Unit {0})
  load_module = do _ ← invoke Invocation.insmod; change (λ (s : State). record s { loaded = true })

  abbrev pub mount_context : Act State (Unit {0})
  mount_context = do
    _ ← invoke Invocation.mount
    change (λ (s : State). record s { mounted = true })

  -- The outer `try`, in three parts: the module and the fixture before anything is loaded, the run
  -- of the fixture, and the whole.
  unfoldable pub check_module : Act State (List ℕ × List ℕ)
  check_module = do
    version ← invoke Invocation.vermagic
    demand (not (is_nil (strip version)) && first_word (strip version) ≟ spec.kernel)
        "Module vermagic does not match the native kernel"
    license ← invoke Invocation.license
    demand (strip license ≟ codes "GPL v2") "Unexpected native module license declaration"
    _ ← invoke Invocation.compile
    give (ok (strip version, strip license))

  unfoldable pub measure : List ℕ → Act State (Value × List ℕ)
  measure executable = do
    output ← invoke Invocation.exercise
    result ← give (parse output)
    cases ← count_fixture "fixtures/binder-device/check.c"
    file_cases ← count_fixture "fixtures/binder-file/check.c"
    mapping_cases ← count_fixture "fixtures/binder-mapping/check.c"
    demand (same_value result (expected_native cases file_cases mapping_cases))
        "Native Binder reference did not execute every expected case"
    runner ← give (host.digest_of executable)
    give (ok (result, runner))

  unfoldable pub exercise : List ℕ → Act State Evidence
  exercise executable = do
    identity ← check_module
    load_module
    mount_context
    measured ← measure executable
    give (
        ok (record {
          result = measured.0;
          vermagic = identity.0;
          module_license = identity.1;
          runner_sha256 = measured.1;
          unload_probe = none;
        }))

  unfoldable pub run_checked : List ℕ → Act State Evidence
  run_checked executable =
      try_finally (λ (evidence : Evidence) unload. record evidence { unload_probe = unload })
        (exercise executable) clean_up

-- With the tools that were found. The directories that the code makes are not in the state.
unfoldable pub run_found :
    (ℕ → Bool)
    → (List ℕ → Result Value)
    → Host
    → Spec
    → Places
    → Option Tools
    → State × Result Evidence
run_found is_word parse host spec places none = (
  no_run,
  err
      "Native reference needs existing compiler, sudo and module/mount tools; nothing was installed",
)
run_found is_word parse host spec places (some tools) =
    (demand (not (host.module_there []))
          "Use an isolated runner: an existing Binder module will not be replaced"
        >> (demand (not (host.mount_alias || host.mount_occupied))
              "Private binderfs requires an empty owned mount directory"
            >> run_checked is_word parse host spec tools places (executable_of places)))
      no_run

-- `run_native`
unfoldable pub run_native :
    (ℕ → Bool) → (List ℕ → Result Value) → Host → Spec → Places → State × Result Evidence
run_native is_word parse host spec places =
    if not (host.system ≟ codes "linux")
      || not (host.release ≟ spec.kernel)
      || not (host.machine ≟ spec.architecture)
    then (no_run, err "Native execution requires the exact pinned Linux kernel and architecture")
    else run_found is_word parse host spec places (tools_of host.which)
