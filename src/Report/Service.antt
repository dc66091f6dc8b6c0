-- ===== src/Report/Service.antt =====
-- scripts/service_bundle.py: `validate_acceptance`.
use artbox.Base.{
  ℕ, ◌&&◌, not, if◌then◌else◌, Bool, true, false, Option, none, some, List, [], ◌∷◌, Result, ok,
  err, require, ◌>>=◌, ◌>>◌,
}
use artbox.Base.Int.{ℤ, pos, negsuc, leb_ℤ}
use artbox.Base.Text.{codes, ◌≟◌}
use artbox.Sources.Selection.{all_in}
use artbox.Report.Value.{
  Value, null, boolean, integer, fraction, text, array, object, Items, no_items, item, Fields,
  no_fields, field, item_of,
}
use artbox.Report.Checks.{
  ◌and_then◌, check, item_true, item_false, get_untrue, all_positive, or_incomplete,
}

-- `CASES`
abbrev pub cases : List (List ℕ × ℤ)
cases =
    (codes "access", pos 20)
    ∷ (codes "wrong-uid", negsuc 108)
    ∷ (codes "wrong-pid", negsuc 106)
    ∷ (codes "roles", pos 0)
    ∷ []

unfoldable pub labels : List (List ℕ × ℤ) → List (List ℕ)
labels [] = []
labels (c ∷ cs) = c.0 ∷ labels cs

unfoldable pub field_names : Fields → List (List ℕ)
field_names no_fields = []
field_names (field name value rest) = name ∷ field_names rest

unfoldable pub letters : List ℕ → List (List ℕ)
letters [] = []
letters (c ∷ cs) = (c ∷ []) ∷ letters cs

-- The members of a list of texts; nothing where there is another value, which no name equals.
abbrev with_name : List ℕ → Option (List (List ℕ)) → Option (List (List ℕ))
with_name name none = none
with_name name (some names) = some (name ∷ names)

unfoldable pub item_names : Items → Result (Option (List (List ℕ)))
item_names no_items = ok (some [])
item_names (item (text name) rest) = item_names rest >>= λ names. ok (with_name name names)
item_names (item (array inner) rest) = err "TypeError"
item_names (item (object inner) rest) = err "TypeError"
item_names (item null rest) = item_names rest >>= λ names. ok none
item_names (item (boolean b) rest) = item_names rest >>= λ names. ok none
item_names (item (integer n) rest) = item_names rest >>= λ names. ok none
item_names (item (fraction n k) rest) = item_names rest >>= λ names. ok none

-- `set(value)`
unfoldable pub set_of : Value → Result (Option (List (List ℕ)))
set_of (object entries) = ok (some (field_names entries))
set_of (array members) = item_names members
set_of (text name) = ok (some (letters name))
set_of null = err "TypeError"
set_of (boolean b) = err "TypeError"
set_of (integer n) = err "TypeError"
set_of (fraction n k) = err "TypeError"

-- `names == set(CASES)`
abbrev pub same_set : List (List ℕ) → Option (List (List ℕ)) → Bool
same_set expected none = false
same_set expected (some names) = all_in names expected && all_in expected names

-- A value of `exact`.
pub data Exact : Type 0 where
  number : ℤ → Exact
  flag : Bool → Exact

abbrev pub is_integer : Value → ℤ → Bool
is_integer (integer m) n = leb_ℤ m n && leb_ℤ n m
is_integer null n = false
is_integer (boolean b) n = false
is_integer (fraction m k) n = false
is_integer (text cs) n = false
is_integer (array members) n = false
is_integer (object entries) n = false

abbrev pub is_flag : Value → Bool → Bool
is_flag (boolean b) c = if c then b else not b
is_flag (integer m) c = false
is_flag null c = false
is_flag (fraction m k) c = false
is_flag (text cs) c = false
is_flag (array members) c = false
is_flag (object entries) c = false

-- `type(native[k]) is type(v) and native[k] == v`
unfoldable pub is_exactly : Value → Exact → Bool
is_exactly value (number n) = is_integer value n
is_exactly value (flag b) = is_flag value b

-- `exact`
abbrev pub exact_of : List ℕ → ℤ → List (List ℕ × Exact)
exact_of label access =
    let roles = label ≟ codes "roles" in
    (codes "access_cases", number access)
    ∷ (codes "policy_cases", number (pos 5))
    ∷ (codes "provider", number (pos (if roles then 32 else 0)))
    ∷ (codes "client", number (pos (if roles then 32 else 0)))
    ∷ (codes "roles", number (pos (if roles then 3 else 1)))
    ∷ (codes "independent_images", number (pos (if roles then 18 else 6)))
    ∷ (codes "manager_retained", flag roles)
    ∷ (codes "finite_roles_cleaned", flag true)
    ∷ (codes "passed", flag true)
    ∷ []

unfoldable pub all_exact : Value → List (List ℕ × Exact) → Result Bool
all_exact native [] = ok true
all_exact native (e ∷ es) =
    (item_of native e.0 >>= λ v. ok (is_exactly v e.1)) and_then all_exact native es

abbrev pub measurements : List (List ℕ)
measurements = codes "elapsed_ns" ∷ codes "peak_rss_bytes" ∷ []

abbrev pub exit_is_zero : Value → Result Bool
exit_is_zero execution = item_of execution (codes "exit") >>= λ v. ok (is_integer v (pos 0))

-- The body of `for label, access in CASES.items()`.
unfoldable pub check_case : Value → List ℕ × ℤ → Result (Unit {0})
check_case executions c = do
  execution ← item_of executions c.0
  check (get_untrue execution (codes "timeout") and_then exit_is_zero execution)
      "Service process failed"
  native ← item_of execution (codes "native")
  check (all_exact native (exact_of c.0 c.1)) "Service acceptance is incomplete"
  check (all_positive native measurements) "Service measurements are missing"

unfoldable pub check_cases : Value → List (List ℕ × ℤ) → Result (Unit {0})
check_cases executions [] = ok tt
check_cases executions (c ∷ cs) = check_case executions c >> check_cases executions cs

unfoldable pub validate_service : Value → Result (Unit {0})
validate_service report = or_incomplete "Incomplete service acceptance report" (do
  check
      (item_true report (codes "guest_execution_verified")
        and_then item_false report (codes "working_tree_dirty"))
      "Service requires successful execution from clean inputs"
  executions ← item_of report (codes "executions")
  names ← set_of executions
  require (same_set (labels cases) names) "Service requires all policy controls and native roles"
  check_cases executions cases)
