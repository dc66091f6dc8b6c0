-- ===== src/Tree/Writes.antt =====
-- What a tree of files holds after writes to it.
use artbox.Base.{
  ℕ, true, false, none, some, List, [], ◌∷◌, Option, ◌≡◌, refl, ap, arith, inl, inr, sym, ◌∙◌,
  Bool-cases,
}
use artbox.Base.Text.{◌≟◌, ≟_iff}
use artbox.Paths.{contains}
use artbox.Paths.Laws.{Every}
use artbox.Sources.Plan.{Distinct}
use artbox.Tree.{File, Tree, file_at, write_file, write_all, paths_of, copy_all}

pub ≟-refl : (x : List ℕ) → (x ≟ x) ≡ true
≟-refl x = (≟_iff x x).1 refl

pub file_at-write_file_same :
    (path contents : List ℕ) (tree : Tree)
    → file_at path (write_file path contents tree) ≡ some contents
unfolding file_at write_file
file_at-write_file_same path contents [] = rw (≟-refl path) refl
file_at-write_file_same path contents (f ∷ fs) = elim (Bool-cases (path ≟ f.0)) [
  | inl same ↦ rw (same, ≟-refl path) refl
  | inr other ↦ rw (other, other) (file_at-write_file_same path contents fs)
]

pub file_at-write_file_other :
    (path other contents : List ℕ) (tree : Tree)
    → (path ≟ other) ≡ false
    → file_at path (write_file other contents tree) ≡ file_at path tree
unfolding file_at write_file
file_at-write_file_other path other contents [] h = rw h refl
file_at-write_file_other path other contents (f ∷ fs) h = elim (Bool-cases (other ≟ f.0)) [
  | inl same ↦
      let e : other ≡ f.0 = (≟_iff other f.0).0 same in
      let h' : (path ≟ f.0) ≡ false = rw e at h in rw (same, h, h') refl
  | inr differs ↦ rw (differs, file_at-write_file_other path other contents fs h) refl
]

pub file_at-write_all_other :
    (path : List ℕ) (fs : List File) (tree : Tree)
    → contains path (paths_of fs) ≡ false
    → file_at path (write_all fs tree) ≡ file_at path tree
unfolding write_all paths_of contains
file_at-write_all_other path [] tree h = refl
file_at-write_all_other path (f ∷ fs) tree h =
    file_at-write_all_other path fs (write_file f.0 f.1 tree) (ground arith)
    ∙ file_at-write_file_other path f.0 f.1 tree (ground arith)

-- Writes to distinct paths are all read back.
pub write_all-Every :
    (fs : List File) (tree : Tree)
    → Distinct (paths_of fs)
    → Every (λ f. file_at f.0 (write_all fs tree) ≡ some f.1) fs
unfolding write_all paths_of
write_all-Every [] tree d = tt
write_all-Every (f ∷ fs) tree d = (
  file_at-write_all_other f.0 fs (write_file f.0 f.1 tree) d.0
      ∙ file_at-write_file_same f.0 f.1 tree,
  write_all-Every fs (write_file f.0 f.1 tree) d.1,
)

-- `copy_all` puts its files over those of the tree.
abbrev pub or_else {ℓ} : {A : Type ℓ} → Option A → Option A → Option A
or_else none b = b
or_else (some a) b = some a

pub file_at-copy_all :
    (path : List ℕ) (fs : List File) (tree : Tree)
    → file_at path (copy_all fs tree) ≡ or_else (file_at path fs) (file_at path tree)
unfolding copy_all file_at
file_at-copy_all path [] tree = refl
file_at-copy_all path (f ∷ fs) tree = elim (Bool-cases (path ≟ f.0)) [
  | inl same ↦
      let e : path ≡ f.0 = (≟_iff path f.0).0 same in
      rw same (rw (sym e) (file_at-write_file_same path f.1 (copy_all fs tree)))
  | inr other ↦ rw other (
      file_at-write_file_other path f.0 f.1 (copy_all fs tree) other
      ∙ file_at-copy_all path fs tree)
]

-- Writes to distinct paths put those files over those of the tree.
pub file_at-write_all :
    (path : List ℕ) (fs : List File) (tree : Tree)
    → Distinct (paths_of fs)
    → file_at path (write_all fs tree) ≡ or_else (file_at path fs) (file_at path tree)
unfolding write_all file_at paths_of
file_at-write_all path [] tree d = refl
file_at-write_all path (f ∷ fs) tree d = elim (Bool-cases (path ≟ f.0)) [
  | inl same ↦
      let e : path ≡ f.0 = (≟_iff path f.0).0 same in
      let absent : contains path (paths_of fs) ≡ false = rw e d.0 in
      rw same (
        file_at-write_all_other path fs (write_file f.0 f.1 tree) absent
        ∙ rw e (file_at-write_file_same f.0 f.1 tree))
  | inr other ↦ rw other (
      file_at-write_all path fs (write_file f.0 f.1 tree) d.1
      ∙ rw (file_at-write_file_other path f.0 f.1 tree other) refl)
]

pub file_at-eq-none :
    (path : List ℕ) (tree : Tree) → contains path (paths_of tree) ≡ false → file_at path tree ≡ none
unfolding file_at contains paths_of
file_at-eq-none path [] h = refl
file_at-eq-none path (f ∷ fs) h =
    let other : (path ≟ f.0) ≡ false = ground arith in
    rw other (file_at-eq-none path fs (ground arith))

pub contains-paths_of :
    (path : List ℕ) (tree : Tree) → file_at path tree ≡ none → contains path (paths_of tree) ≡ false
unfolding file_at contains paths_of
contains-paths_of path [] h = refl
contains-paths_of path (f ∷ fs) h = elim (Bool-cases (path ≟ f.0)) [
  | inl same ↦ cc (rw same at h)
  | inr other ↦ rw other (contains-paths_of path fs (rw other at h))
]

-- Writing to a path that is there keeps the paths and their order.
pub paths_of-write_file :
    (path contents held : List ℕ) (tree : Tree)
    → file_at path tree ≡ some held
    → paths_of (write_file path contents tree) ≡ paths_of tree
unfolding file_at write_file paths_of
paths_of-write_file path contents held [] h = cc
paths_of-write_file path contents held (f ∷ fs) h = elim (Bool-cases (path ≟ f.0)) [
  | inl same ↦
      let e : path ≡ f.0 = (≟_iff path f.0).0 same in
      rw same (ap (λ (p : List ℕ). p ∷ paths_of fs) e)
  | inr other ↦ rw other (
      ap (λ (ps : List (List ℕ)). f.0 ∷ ps)
        (paths_of-write_file path contents held fs (rw other at h)))
]
