-- ===== src/Acceptance/Score.antt =====
-- scripts/m2_acceptance.py: `manifest` and `evaluate`. The percentage is compared as a fraction; the
-- code divides as floats, which is exact enough for a whole minimum and the fixed total of 328.
use artbox.Base.{
  ℕ, ◌+◌, ◌*◌, leb, ◌==◌, ◌&&◌, ◌||◌, not, if◌then◌else◌, Bool, true, false, Option, none, some,
  String, List, [], ◌∷◌, ◌++◌, length, Result, ok, err, require, ◌>>=◌, ◌>>◌, zero, suc,
}
use artbox.Base.Int.{ℤ, pos, negsuc}
use artbox.Base.Text.{codes, ◌≟◌}
use artbox.Paths.{contains}

-- A JSON value as far as the code tells values apart: `type(value) is int`, `type(value) is bool`.
pub data Json : Type 0 where
  integer : ℤ → Json
  boolean : Bool → Json
  another : Json

pub record Case : Type 0 where
  pub id : List ℕ
  pub count : Json
  pub mandatory : Json

pub record Contract : Type 0 where
  pub version : ℕ
  pub cases : List Case
  pub total : ℕ
  pub minimum_percent : ℕ

abbrev pub Table : Type 0
Table = List (List ℕ × Json)

-- `NUMBERED`
abbrev numbered : List (List ℕ × List ℕ)
numbered =
    (codes "allocator_devices", codes "cases")
    ∷ (codes "futex", codes "futex_cases")
    ∷ (codes "regular_files", codes "file_cases")
    ∷ (codes "file_mappings", codes "mapping_cases")
    ∷ (codes "anonymous_memory", codes "vm_cases")
    ∷ (codes "pthread_timeouts", codes "timeout_cases")
    ∷ (codes "proc_commandline", codes "proc_cases")
    ∷ []

abbrev expect : String → ℕ → List ℕ × Json
expect key n = (codes key, Json.integer (pos n))

-- `WORKLOADS`
abbrev workloads : List (List ℕ × Table)
workloads =
    (codes "pthread_workload", expect "pthread_result" 0 ∷ expect "threads_reaped" 6 ∷ [])
    ∷ (
      codes "elf_tls",
      expect "tls_result" 0 ∷ expect "tls_modules" 2 ∷ expect "tls_threads" 7 ∷ [],
    )
    ∷ (codes "symbol_versions", expect "version_result" 46 ∷ [])
    ∷ (
      codes "startup_constructors",
      expect "constructors" 5 ∷ expect "linked_images" 4 ∷ expect "absent_netd" 1 ∷ [],
    )
    ∷ []

-- `table.get(key)`
unfoldable pub value_of {ℓ} : {A : Type ℓ} → List ℕ → List (List ℕ × A) → Option A
value_of key [] = none
value_of key (e ∷ es) = let rest = value_of key es in if key ≟ e.0 then some e.1 else rest

abbrev names_of {ℓ} : {A : Type ℓ} → List (List ℕ × A) → List (List ℕ)
names_of [] = []
names_of (e ∷ es) = e.0 ∷ names_of es

unfoldable pub ids_of : List Case → List (List ℕ)
ids_of [] = []
ids_of (c ∷ cs) = c.id ∷ ids_of cs

abbrev pub count_of : Json → ℕ
count_of (Json.integer (pos n)) = n
count_of (Json.integer (negsuc n)) = 0
count_of (Json.boolean b) = 0
count_of Json.another = 0

abbrev pub is_count : Json → Bool
is_count (Json.integer (pos zero)) = false
is_count (Json.integer (pos (suc n))) = true
is_count (Json.integer (negsuc n)) = false
is_count (Json.boolean b) = false
is_count Json.another = false

abbrev pub is_boolean : Json → Bool
is_boolean (Json.boolean b) = true
is_boolean (Json.integer n) = false
is_boolean Json.another = false

abbrev pub is_true : Json → Bool
is_true (Json.boolean b) = b
is_true (Json.integer n) = false
is_true Json.another = false

unfoldable pub all_cases : List Case → Bool
all_cases [] = true
all_cases (c ∷ cs) = is_count c.count && is_boolean c.mandatory && all_cases cs

unfoldable pub sum_counts : List Case → ℕ
sum_counts [] = 0
sum_counts (c ∷ cs) = count_of c.count + sum_counts cs

unfoldable pub subset : List (List ℕ) → List (List ℕ) → Bool
subset [] ys = true
subset (x ∷ xs) ys = contains x ys && subset xs ys

abbrev known_ids : List (List ℕ)
known_ids = names_of numbered ++ names_of workloads

-- `manifest()`, without the reading of the file and its hash.
unfoldable pub check_contract : Contract → Result (Unit {0})
check_contract contract =
    require
      (contract.version == 1
        && subset (ids_of contract.cases) known_ids
        && subset known_ids (ids_of contract.cases)
        && length contract.cases == length known_ids
        && all_cases contract.cases
        && sum_counts contract.cases == contract.total
        && contract.total == 328)
      "M2 version-1 denominator changed or is malformed"

-- `expected`; an id without one is the `KeyError` of the code.
unfoldable pub expected_of : Case → Result Table
expected_of c = elim (value_of c.id numbered) [
  | some key ↦ ok ((key, c.count) ∷ [])
  | none ↦ elim (value_of c.id workloads) [ some table ↦ ok table | none ↦ err "KeyError" ]
]

abbrev pub is_none {ℓ} : {A : Type ℓ} → Option A → Bool
is_none none = true
is_none (some a) = false

-- `any(k not in observed for k in expected)`
unfoldable pub is_missing : Table → Table → Bool
is_missing observed [] = false
is_missing observed (e ∷ es) = is_none (value_of e.0 observed) || is_missing observed es

abbrev eqb_integer : ℤ → ℤ → Bool
eqb_integer (pos m) (pos n) = m == n
eqb_integer (negsuc m) (negsuc n) = m == n
eqb_integer (pos m) (negsuc n) = false
eqb_integer (negsuc m) (pos n) = false

-- `type(value) is int and value == wanted`
abbrev pub agrees : Option Json → Json → Bool
agrees (some (Json.integer m)) (Json.integer n) = eqb_integer m n
agrees (some (Json.integer m)) (Json.boolean b) = false
agrees (some (Json.integer m)) Json.another = false
agrees (some (Json.boolean b)) wanted = false
agrees (some Json.another) wanted = false
agrees none wanted = false

-- `all(type(observed[k]) is int and observed[k] == v for k, v in expected.items())`
unfoldable pub all_agree : Table → Table → Bool
all_agree observed [] = true
all_agree observed (e ∷ es) = agrees (value_of e.0 observed) e.1 && all_agree observed es

pub record Group : Type 0 where
  pub entry : Case
  pub passed : ℕ
  pub failed : ℕ
  pub unexecuted : ℕ

unfoldable pub group_of : Table → Case → Table → Group
group_of observed c expected =
    let count = count_of c.count in
    let missing = is_missing observed expected in
    let passed = not missing && all_agree observed expected in
    record {
      entry = c;
      passed = if passed then count else 0;
      failed = if not passed && not missing then count else 0;
      unexecuted = if missing then count else 0;
    }

-- `for entry in contract['cases']`
unfoldable pub groups_of : Table → List Case → Result (List Group)
groups_of observed [] = ok []
groups_of observed (c ∷ cs) = do
  expected ← expected_of c
  groups ← groups_of observed cs
  ok (group_of observed c expected ∷ groups)

unfoldable pub sum_of : (Group → ℕ) → List Group → ℕ
sum_of field [] = 0
sum_of field (g ∷ gs) = field g + sum_of field gs

-- `all(g['passed'] == g['count'] for g in groups if g['mandatory'])`
unfoldable pub mandatory_passed : List Group → Bool
mandatory_passed [] = true
mandatory_passed (g ∷ gs) =
    (not (is_true g.entry.mandatory) || g.passed == count_of g.entry.count) && mandatory_passed gs

-- What `evaluate` returns, without the hash; `percent` is `100 * passed / total`.
pub record Score : Type 0 where
  pub total : ℕ
  pub passed : ℕ
  pub failed : ℕ
  pub unexecuted : ℕ
  pub success : Bool
  pub groups : List Group

unfoldable pub evaluate : Contract → Table → Result Score
evaluate contract observed = do
  check_contract contract
  groups ← groups_of observed contract.cases
  let passed = sum_of (λ g. g.passed) groups
  ok (record {
    total = contract.total;
    passed = passed;
    failed = sum_of (λ g. g.failed) groups;
    unexecuted = sum_of (λ g. g.unexecuted) groups;
    success =
        leb (contract.minimum_percent * contract.total) (100 * passed) && mandatory_passed groups;
    groups = groups;
  })
