-- ===== src/Reference/Expected.antt =====
-- scripts/binder_reference.py: the results that `compare_driver` expects of the four test programs,
-- made of the items of the native reference.
use artbox.Base.{
  ℕ, true, String, List, [], ◌∷◌, Result, ok, require, ◌>>=◌, ◌>>◌, ◌≡◌, sym, >>=-elim,
  require-elim, ok-injective,
}
use artbox.Base.Int.{pos}
use artbox.Base.Text.{codes}
use artbox.Report.Value.{
  Value, Fields, no_fields, field, integer, boolean, object, item_of, same_value,
}

-- A value that stands in the code, or one that is taken from the reference.
pub data Expectation : Type 0 where
  known : Value → Expectation
  taken : String → Expectation

abbrev value_of_entry : Value → Expectation → Result Value
value_of_entry reference (Expectation.known value) = ok value
value_of_entry reference (Expectation.taken key) = item_of reference (codes key)

unfoldable pub fields_from : Value → List (String × Expectation) → Result Fields
fields_from reference [] = ok no_fields
fields_from reference (e ∷ es) = do
  value ← value_of_entry reference e.1
  rest ← fields_from reference es
  ok (field (codes e.0) value rest)

abbrev stated : String → String × Expectation
stated key = (key, Expectation.known (boolean true))

abbrev cycles : String × Expectation
cycles = ("concurrent_lifecycles", Expectation.known (integer (pos 4000)))

abbrev pub driver_table : List (String × Expectation)
driver_table =
    ("protocol", Expectation.taken "protocol")
    ∷ ("shared_cases", Expectation.taken "cases")
    ∷ stated "vm_and_admission_controls"
    ∷ cycles
    ∷ stated "passed"
    ∷ []

abbrev pub vfs_table : List (String × Expectation)
vfs_table =
    ("shared_ioctl_cases", Expectation.taken "cases")
    ∷ ("shared_file_cases", Expectation.taken "file_cases")
    ∷ cycles
    ∷ stated "passed"
    ∷ []

abbrev pub receive_table : List (String × Expectation)
receive_table =
    ("shared_mapping_cases", Expectation.taken "mapping_cases")
    ∷ ("shared_poll_cases", Expectation.taken "poll_cases")
    ∷ stated "native_alias_verified"
    ∷ stated "ownership_controls"
    ∷ ("wait_contract_cases", Expectation.taken "wait_cases")
    ∷ stated "interrupt_epoch_injected"
    ∷ stated "passive_unmap_wakeup"
    ∷ ("mapped_poll_lifetime", Expectation.taken "epoll_mapped_target_lifetime")
    ∷ stated "wake_observers"
    ∷ ("shared_epoll_cases", Expectation.taken "epoll_snapshot_cases")
    ∷ stated "epoll_lifecycle"
    ∷ stated "epoll_interrupt_epoch_injected"
    ∷ stated "passed"
    ∷ []

abbrev pub transaction_table : List (String × Expectation)
transaction_table =
    ("same_pid_rejected", Expectation.taken "same_pid_rejected")
    ∷ ("shared_threaded_ping_pong", Expectation.taken "threaded_ping_pong")
    ∷ ("death_cases", Expectation.taken "death_cases")
    ∷ ("object_handle_lifecycle", Expectation.taken "object_handle_lifecycle")
    ∷ ("oneway_lifecycle", Expectation.taken "oneway_lifecycle")
    ∷ ("node_info_lifecycle", Expectation.taken "node_info_lifecycle")
    ∷ ("blocking_threaded_ping_pong", Expectation.taken "blocking_threaded_ping_pong")
    ∷ ("readiness_lifecycle", Expectation.taken "readiness_lifecycle")
    ∷ stated "native_aliases"
    ∷ stated "cleanup"
    ∷ stated "passed"
    ∷ []

module _ (parse : List ℕ → Result Value) (reference : Value) where
  -- A program's output, parsed and compared.
  unfoldable pub check_output : List (String × Expectation) → String → List ℕ → Result Value
  check_output table message output = do
    result ← parse output
    expected ← fields_from reference table
    require (same_value result (object expected)) message
    ok result

  -- The output is that of a program which has passed.
  pub record IsPassed (table : List (String × Expectation)) (output : List ℕ) (result : Value)
      : Type 0 where
    pub expected : Fields
    pub parsed : parse output ≡ ok result
    pub made : fields_from reference table ≡ ok expected
    pub same : same_value result (object expected) ≡ true

  pub check_output-IsPassed :
      (table : List (String × Expectation)) (message : String) (output : List ℕ) (result : Value)
      → check_output table message output ≡ ok result
      → IsPassed table output result
  unfolding check_output
  check_output-IsPassed table message output result e = >>=-elim (parse output) e λ found parsed e₁.
      >>=-elim (fields_from reference table) e₁ λ expected made e₂.
        require-elim (same_value found (object expected)) message e₂ λ same e₃.
          rw (sym (ok-injective e₃))
            (record { expected = expected; parsed = parsed; made = made; same = same })
