-- ===== src/Adapt/Native/Accepted.antt =====
-- scripts/bionic_adapt.py: the code that `check_native` accepts with the references that
-- `stack_references` counts.
use artbox.Base.{
  ℕ, ◌<◌, ◌==◌, ◌&&◌, not, Bool, true, false, some, List, [], ◌∷◌, ok, ◌≡◌, ◌⊎◌, inl, inr, refl,
  arith, Bool-cases, Option-cases, >>=-elim, require-elim,
}
use artbox.Base.Text.{codes, ◌≟◌}
use artbox.Paths.{is_nil, contains}
use artbox.Paths.Laws.{Every}
use artbox.Sources.Archive.{starts_with}
use artbox.Sources.Plan.{not-true}
use artbox.Adapt.Native.{
  Relocation, Protection, is_failure_branch, is_guard_address, count_item, count_items,
  count_sections, no_references, stack_references, Counts, instructions, count_named, unsafe_counts,
  any_starts_with, outlined, has_bridge, check_counts, check_native,
}

-- Some relocation of some section passes a test.
abbrev pub SomeItem : (Relocation → Bool) → List Relocation → Type 0
SomeItem test [] = ⊥
SomeItem test (r ∷ rs) = (test r ≡ true) ⊎ SomeItem test rs

abbrev pub SomeReference : (Relocation → Bool) → List (List Relocation) → Type 0
SomeReference test [] = ⊥
SomeReference test (s ∷ ss) = SomeItem test s ⊎ SomeReference test ss

count_items-branch_step :
    (r : Relocation) (p : Protection)
    → 0 < (count_item r p).failure_branches
    → (0 < p.failure_branches) ⊎ (is_failure_branch r ≡ true)
unfolding count_item
count_items-branch_step r p h = elim (Bool-cases (is_failure_branch r)) [
  | inl here ↦ inr here
  | inr other ↦ inl (rw other at h)
]

count_items-branch :
    (rs : List Relocation) (p : Protection)
    → 0 < (count_items rs p).failure_branches
    → (0 < p.failure_branches) ⊎ SomeItem is_failure_branch rs
unfolding count_items
count_items-branch [] p h = inl h
count_items-branch (r ∷ rs) p h = elim (count_items-branch rs (count_item r p) h) [
  | inr later ↦ inr (inr later)
  | inl before ↦ elim (count_items-branch_step r p before) [
    | inl first ↦ inl first
    | inr here ↦ inr (inl here)
  ]
]

count_items-guard_step :
    (r : Relocation) (p : Protection)
    → 0 < (count_item r p).guard_address_relocations
    → (0 < p.guard_address_relocations) ⊎ (is_guard_address r ≡ true)
unfolding count_item
count_items-guard_step r p h = elim (Bool-cases (is_guard_address r)) [
  | inl here ↦ inr here
  | inr other ↦ inl (rw other at h)
]

count_items-guard :
    (rs : List Relocation) (p : Protection)
    → 0 < (count_items rs p).guard_address_relocations
    → (0 < p.guard_address_relocations) ⊎ SomeItem is_guard_address rs
unfolding count_items
count_items-guard [] p h = inl h
count_items-guard (r ∷ rs) p h = elim (count_items-guard rs (count_item r p) h) [
  | inr later ↦ inr (inr later)
  | inl before ↦ elim (count_items-guard_step r p before) [
    | inl first ↦ inl first
    | inr here ↦ inr (inl here)
  ]
]

count_sections-branch :
    (ss : List (List Relocation)) (p : Protection)
    → 0 < (count_sections ss p).failure_branches
    → (0 < p.failure_branches) ⊎ SomeReference is_failure_branch ss
unfolding count_sections
count_sections-branch [] p h = inl h
count_sections-branch (s ∷ ss) p h = elim (count_sections-branch ss (count_items s p) h) [
  | inr later ↦ inr (inr later)
  | inl here ↦ elim (count_items-branch s p here) [
    | inl before ↦ inl before
    | inr found ↦ inr (inl found)
  ]
]

count_sections-guard :
    (ss : List (List Relocation)) (p : Protection)
    → 0 < (count_sections ss p).guard_address_relocations
    → (0 < p.guard_address_relocations) ⊎ SomeReference is_guard_address ss
unfolding count_sections
count_sections-guard [] p h = inl h
count_sections-guard (s ∷ ss) p h = elim (count_sections-guard ss (count_items s p) h) [
  | inr later ↦ inr (inr later)
  | inl here ↦ elim (count_items-guard s p here) [
    | inl before ↦ inl before
    | inr found ↦ inr (inl found)
  ]
]

-- Every count but that of the instructions is zero.
abbrev pub IsQuiet : List ℕ × ℕ → Type 0
IsQuiet c = (c.0 ≟ instructions) ≡ false → c.1 ≡ 0

unsafe_counts-IsQuiet :
    (counts : Counts) → is_nil (unsafe_counts counts) ≡ true → Every IsQuiet counts
unfolding unsafe_counts
unsafe_counts-IsQuiet [] h = tt
unsafe_counts-IsQuiet (c ∷ cs) h = elim (Bool-cases (not (c.0 ≟ instructions) && not (c.1 == 0))) [
  | inl kept ↦ cc (rw kept at h)
  | inr free ↦ ((λ other. ground arith), unsafe_counts-IsQuiet cs (rw free at h))
]

abbrev pub IsNotOutlined : List ℕ → Type 0
IsNotOutlined symbol = starts_with symbol outlined ≡ false

any_starts_with-none :
    (symbols : List (List ℕ))
    → any_starts_with outlined symbols ≡ false
    → Every IsNotOutlined symbols
unfolding any_starts_with
any_starts_with-none [] h = tt
any_starts_with-none (s ∷ ss) h = (ground arith, any_starts_with-none ss (ground arith))

-- What is promised of native code.
pub record IsNative (counts : Counts) (symbols : List (List ℕ)) (sections : List (List Relocation))
    : Type 0 where
  pub count : ℕ
  pub counted : count_named instructions counts ≡ some count
  pub some_code : 0 < count
  pub quiet : Every IsQuiet counts
  pub not_outlined : Every IsNotOutlined symbols
  pub get_tls : contains (codes "artbox_bionic_get_tls") symbols ≡ true
  pub set_tls : contains (codes "artbox_bionic_set_tls") symbols ≡ true
  pub syscall : contains (codes "artbox_bionic_syscall") symbols ≡ true
  pub fails : SomeReference is_failure_branch sections
  pub guarded : SomeReference is_guard_address sections

check_counts-facts :
    (counts : Counts)
    → check_counts counts ≡ ok tt
    → Every IsQuiet counts × ((n : ℕ) × (count_named instructions counts ≡ some n) × (0 < n))
unfolding check_counts
check_counts-facts counts e =
    require-elim (is_nil (unsafe_counts counts))
      "Bionic native profile retains unsupported instruction accesses" e
      λ quiet e₁. (
        unsafe_counts-IsQuiet counts quiet,
        elim (Option-cases (count_named instructions counts)) [
          | inl absent ↦ cc (rw absent at e₁)
          | inr (n, counted) ↦ (n, counted, ground (arith, rw counted at e₁))
        ],
      )

from_start : {P : Type 0} {n : ℕ} → n ≡ 0 → (0 < n) ⊎ P → P
from_start e (inl h) = absurd (omega arith)
from_start e (inr p) = p

-- Native Bionic code that `check_native` accepts with the references that `stack_references`
-- counts has instructions, all other counts zero, no symbol that begins with __aarch64_, the
-- three bridge symbols, a relocation that calls or jumps to __stack_chk_fail, and one that
-- addresses __stack_chk_guard.
pub check_native-IsNative :
    (counts : Counts) (symbols : List (List ℕ)) (sections : List (List Relocation))
    → check_native counts symbols (stack_references sections) ≡ ok tt
    → IsNative counts symbols sections
unfolding check_native stack_references has_bridge
check_native-IsNative counts symbols sections e = >>=-elim (check_counts counts) e λ _ checked e₁.
    require-elim (not (any_starts_with outlined symbols))
      "Bionic native profile still imports outlined atomic/runtime helpers" e₁
      λ free e₂.
        require-elim (has_bridge symbols)
          "Bionic native profile lost its guest TLS or raw-syscall bridge" e₂
          λ bridge e₃.
            let (quiet, (n, named, positive)) = check_counts-facts counts checked in
            record {
              count = n;
              counted = named;
              some_code = positive;
              quiet = quiet;
              not_outlined = any_starts_with-none symbols (not-true free);
              get_tls = ground arith;
              set_tls = ground arith;
              syscall = ground arith;
              fails = from_start refl (count_sections-branch sections no_references (ground arith));
              guarded =
                  from_start refl (count_sections-guard sections no_references (ground arith));
            }
