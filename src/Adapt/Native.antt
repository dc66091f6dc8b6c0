-- ===== src/Adapt/Native.antt =====
-- scripts/bionic_adapt.py: `stack_references` and `check_native`, the checks of compiled Bionic code.
-- The counts of `inventory`, which matches disassembly against patterns, are an input.
pub mod Accepted
use artbox.Base.{
  ℕ, zero, suc, ◌+◌, ◌==◌, ◌&&◌, ◌||◌, not, if◌then◌else◌, Bool, true, false, List, [], ◌∷◌, Result,
  ok, Option, none, some, err, require, ◌>>=◌, ◌>>◌,
}
use artbox.Base.Text.{codes, ◌≟◌}
use artbox.Paths.{is_nil, contains}
use artbox.Sources.Archive.{starts_with}

-- What the code reads of `item["Relocation"]`: the names of its type and of its symbol.
pub record Relocation : Type 0 where
  pub kind : List ℕ
  pub symbol : List ℕ

pub record Protection : Type 0 where
  pub failure_branches : ℕ
  pub guard_address_relocations : ℕ

abbrev pub no_references : Protection
no_references = record { failure_branches = 0; guard_address_relocations = 0 }

abbrev branch_kinds : List (List ℕ)
branch_kinds = codes "R_AARCH64_CALL26" ∷ codes "R_AARCH64_JUMP26" ∷ []

abbrev guard_kinds : List (List ℕ)
guard_kinds =
    codes "R_AARCH64_ADR_GOT_PAGE"
    ∷ codes "R_AARCH64_LD64_GOT_LO12_NC"
    ∷ codes "R_AARCH64_ADR_PREL_PG_HI21"
    ∷ codes "R_AARCH64_ADD_ABS_LO12_NC"
    ∷ []

unfoldable pub is_failure_branch : Relocation → Bool
is_failure_branch r = r.symbol ≟ codes "__stack_chk_fail" && contains r.kind branch_kinds

unfoldable pub is_guard_address : Relocation → Bool
is_guard_address r = r.symbol ≟ codes "__stack_chk_guard" && contains r.kind guard_kinds

-- The two tests of an item.
unfoldable pub count_item : Relocation → Protection → Protection
count_item r p = record {
  failure_branches = if is_failure_branch r then suc p.failure_branches else p.failure_branches;
  guard_address_relocations =
      if is_guard_address r then suc p.guard_address_relocations else p.guard_address_relocations;
}

-- `for item in section["Relocs"]`
unfoldable pub count_items : List Relocation → Protection → Protection
count_items [] p = p
count_items (r ∷ rs) p = count_items rs (count_item r p)

-- `for section in relocations`
unfoldable pub count_sections : List (List Relocation) → Protection → Protection
count_sections [] p = p
count_sections (section ∷ sections) p = count_sections sections (count_items section p)

unfoldable pub stack_references : List (List Relocation) → Protection
stack_references sections = count_sections sections no_references

-- The dict that `inventory` returns, by name.
abbrev pub Counts : Type 0
Counts = List (List ℕ × ℕ)

abbrev pub instructions : List ℕ
instructions = codes "instruction_count"

-- `counts[name]`
unfoldable pub count_named : List ℕ → Counts → Option ℕ
count_named name [] = none
count_named name (c ∷ cs) = let rest = count_named name cs in if name ≟ c.0 then some c.1 else rest

-- The dict `unsafe`.
unfoldable pub unsafe_counts : Counts → Counts
unsafe_counts [] = []
unsafe_counts (c ∷ cs) =
    let rest = unsafe_counts cs in
    if not (c.0 ≟ instructions) && not (c.1 == 0) then c ∷ rest else rest

-- `any(symbol.startswith(prefix) for symbol in symbols)`
unfoldable pub any_starts_with : List ℕ → List (List ℕ) → Bool
any_starts_with prefix [] = false
any_starts_with prefix (s ∷ ss) = starts_with s prefix || any_starts_with prefix ss

abbrev pub outlined : List ℕ
outlined = codes "__aarch64_"

unfoldable pub has_bridge : List (List ℕ) → Bool
has_bridge symbols =
    contains (codes "artbox_bionic_get_tls") symbols
    && contains (codes "artbox_bionic_set_tls") symbols
    && contains (codes "artbox_bionic_syscall") symbols

-- `not counts["instruction_count"]`, where the key may be missing.
abbrev has_instructions : Option ℕ → Result Bool
has_instructions none = err "KeyError"
has_instructions (some n) = ok (not (n == 0))

-- `unsafe or not counts["instruction_count"]` reads the count only where nothing is unsafe.
unfoldable pub check_counts : Counts → Result (Unit {0})
check_counts counts = do
  require (is_nil (unsafe_counts counts))
      "Bionic native profile retains unsupported instruction accesses"
  some_code ← has_instructions (count_named instructions counts)
  require some_code "Bionic native profile retains unsupported instruction accesses"

unfoldable pub check_native : Counts → List (List ℕ) → Protection → Result (Unit {0})
check_native counts symbols protection = do
  check_counts counts
  require (not (any_starts_with outlined symbols))
      "Bionic native profile still imports outlined atomic/runtime helpers"
  require (has_bridge symbols) "Bionic native profile lost its guest TLS or raw-syscall bridge"
  require (not (protection.failure_branches == 0 || protection.guard_address_relocations == 0))
      "Bionic native profile lost stack guard references or failure branches"
