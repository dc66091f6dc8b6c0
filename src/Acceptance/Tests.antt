-- ===== src/Acceptance/Tests.antt =====
-- scripts/m2_acceptance.py with the contract of fixtures/bionic-startup/acceptance.json.
use artbox.Base.{ℕ, String, true, false, [], ◌∷◌, ok, ◌≡◌, refl}
use artbox.Base.Int.{pos}
use artbox.Base.Text.{codes, ◌≟◌}
use artbox.Paths.{contains}
use artbox.Acceptance.Score.{
  Json, Case, Contract, Table, value_of, ids_of, all_cases, sum_counts, subset, check_contract,
  expected_of, is_missing, all_agree, Group, group_of, groups_of, sum_of, mandatory_passed, Score,
  evaluate,
}
use artbox.Acceptance.Totals.{IsScore, evaluate-IsScore}

abbrev case_of : String → ℕ → Case
case_of id n = record { id = codes id; count = Json.integer (pos n); mandatory = Json.boolean true }

abbrev contract : Contract
contract = record {
  version = 1;
  cases =
      case_of "allocator_devices" 146
      ∷ case_of "futex" 19
      ∷ case_of "regular_files" 41
      ∷ case_of "file_mappings" 43
      ∷ case_of "anonymous_memory" 35
      ∷ case_of "pthread_timeouts" 18
      ∷ case_of "proc_commandline" 22
      ∷ case_of "pthread_workload" 1
      ∷ case_of "elf_tls" 1
      ∷ case_of "symbol_versions" 1
      ∷ case_of "startup_constructors" 1
      ∷ [];
  total = 328;
  minimum_percent = 90;
}

-- Everything was observed but the symbol versions, and one file case is short.
abbrev startup_report : Table
startup_report =
    (codes "cases", Json.integer (pos 146))
    ∷ (codes "futex_cases", Json.integer (pos 19))
    ∷ (codes "file_cases", Json.integer (pos 40))
    ∷ (codes "mapping_cases", Json.integer (pos 43))
    ∷ (codes "vm_cases", Json.integer (pos 35))
    ∷ (codes "timeout_cases", Json.integer (pos 18))
    ∷ (codes "proc_cases", Json.integer (pos 22))
    ∷ (codes "pthread_result", Json.integer (pos 0))
    ∷ (codes "threads_reaped", Json.integer (pos 6))
    ∷ (codes "tls_result", Json.integer (pos 0))
    ∷ (codes "tls_modules", Json.integer (pos 2))
    ∷ (codes "tls_threads", Json.integer (pos 7))
    ∷ (codes "constructors", Json.integer (pos 5))
    ∷ (codes "linked_images", Json.integer (pos 4))
    ∷ (codes "absent_netd", Json.integer (pos 1))
    ∷ []

abbrev group : String → ℕ → ℕ → ℕ → ℕ → Group
group id n passed failed unexecuted = record {
  entry = case_of id n;
  passed = passed;
  failed = failed;
  unexecuted = unexecuted;
}

abbrev score : Score
score = record {
  total = 328;
  passed = 286;
  failed = 41;
  unexecuted = 1;
  success = false;
  groups =
      group "allocator_devices" 146 146 0 0
      ∷ group "futex" 19 19 0 0
      ∷ group "regular_files" 41 0 41 0
      ∷ group "file_mappings" 43 43 0 0
      ∷ group "anonymous_memory" 35 35 0 0
      ∷ group "pthread_timeouts" 18 18 0 0
      ∷ group "proc_commandline" 22 22 0 0
      ∷ group "pthread_workload" 1 1 0 0
      ∷ group "elf_tls" 1 1 0 0
      ∷ group "symbol_versions" 1 0 0 1
      ∷ group "startup_constructors" 1 1 0 0
      ∷ [];
}

startup_report-score : evaluate contract startup_report ≡ ok score
unfolding evaluate check_contract ids_of subset contains all_cases sum_counts groups_of expected_of
    value_of group_of is_missing all_agree sum_of mandatory_passed ◌≟◌
startup_report-score = refl

evaluate-IsScore_example : IsScore contract startup_report score
evaluate-IsScore_example = evaluate-IsScore contract startup_report score startup_report-score
