-- ===== src/Aidl/Removed.antt =====
-- Files taken from a tree, for scripts/binder_aidl.py: what stands at the other paths.
use artbox.Base.{
  ℕ, ◌||◌, false, none, List, [], ◌∷◌, ◌≡◌, refl, sym, ◌∙◌, inl, inr, Bool-cases, Option-cases,
}
use artbox.Base.Text.{◌≟◌, ≟_iff}
use artbox.Paths.{contains}
use artbox.Tree.{Tree, file_at, write_file}
use artbox.Tree.Disk.{Disk, exists}
use artbox.Tree.Writes.{file_at-write_file_other}
use artbox.Aidl.{remove_file}

pub file_at-remove_file_same :
    (path : List ℕ) (files : Tree) → file_at path (remove_file path files) ≡ none
unfolding remove_file file_at
file_at-remove_file_same path [] = refl
file_at-remove_file_same path (f ∷ fs) = elim (Bool-cases (path ≟ f.0)) [
  | inl same ↦ rw same (file_at-remove_file_same path fs)
  | inr other ↦ rw (other, other) (file_at-remove_file_same path fs)
]

pub file_at-remove_file_other :
    (path removed : List ℕ) (files : Tree)
    → (path ≟ removed) ≡ false
    → file_at path (remove_file removed files) ≡ file_at path files
unfolding remove_file file_at
file_at-remove_file_other path removed [] h = refl
file_at-remove_file_other path removed (f ∷ fs) h = elim (Bool-cases (removed ≟ f.0)) [
  | inl same ↦
      let e : removed ≡ f.0 = (≟_iff removed f.0).0 same in
      let differs : (path ≟ f.0) ≡ false = rw e at h in
      rw (same, differs) (file_at-remove_file_other path removed fs h)
  | inr other ↦ rw (other, file_at-remove_file_other path removed fs h) refl
]

-- A temporary file that is gone again leaves every path as it was.
pub staged-removed :
    (temporary contents path : List ℕ) (files : Tree)
    → file_at temporary files ≡ none
    → file_at path (remove_file temporary (write_file temporary contents files))
      ≡ file_at path files
staged-removed temporary contents path files fresh = elim (Bool-cases (path ≟ temporary)) [
  | inl same ↦
      let e : temporary ≡ path = sym ((≟_iff path temporary).0 same) in
      rw e (file_at-remove_file_same path (write_file path contents files) ∙ sym (rw e at fresh))
  | inr other ↦
      file_at-remove_file_other path temporary (write_file temporary contents files) other
      ∙ file_at-write_file_other path temporary contents files other
]

pub exists-none :
    (path : List ℕ) (disk : Disk) (links : List (List ℕ))
    → (exists path disk || contains path links) ≡ false
    → file_at path disk.files ≡ none
unfolding exists
exists-none path disk links h = elim (Option-cases (file_at path disk.files)) [
  | inl absent ↦ absent
  | inr (contents, held) ↦ cc (rw held at h)
]
