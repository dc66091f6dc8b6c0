-- ===== src/Tree/Growth.antt =====
-- How trees and directories grow by writes to new paths.
use artbox.Base.{
  ℕ, not, Option, none, some, List, [], ◌∷◌, ok, ◌≡◌, ◌⊎◌, inl, inr, refl, sym, ◌∙◌, Bool-cases,
  require-elim, ok-injective,
}
use artbox.Base.Text.{◌≟◌, ≟_iff}
use artbox.Paths.{parents}
use artbox.Paths.Laws.{Every}
use artbox.Tree.{Tree, file_at, write_file, paths_of}
use artbox.Tree.Writes.{file_at-write_file_same, file_at-write_file_other}
use artbox.Tree.Disk.{
  Disk, make_directory, write_new, set_mode, copy_mode, any_is_file, is_directory_at,
}

-- Every file of one tree is in another.
abbrev pub Grows : Tree → Tree → Type 0
Grows files files' =
    (path contents : List ℕ)
    → file_at path files ≡ some contents
    → file_at path files' ≡ some contents

pub write_file-Grows :
    (path contents : List ℕ) (files : Tree)
    → file_at path files ≡ none
    → Grows files (write_file path contents files)
write_file-Grows path contents files absent p c held = elim (Bool-cases (p ≟ path)) [
  | inl same ↦ let e : p ≡ path = (≟_iff p path).0 same in cc (absent, rw e at held)
  | inr other ↦ file_at-write_file_other p path contents files other ∙ held
]

pub paths_of-write_file-Every :
    (P : List ℕ → Type 0) (path contents : List ℕ) (files : Tree)
    → P path
    → Every P (paths_of files)
    → Every P (paths_of (write_file path contents files))
unfolding paths_of write_file
paths_of-write_file-Every P path contents [] p all = (p, tt)
paths_of-write_file-Every P path contents (f ∷ fs) p all = elim (Bool-cases (path ≟ f.0)) [
  | inl same ↦ rw same (p, all.1)
  | inr other ↦ rw other (all.0, paths_of-write_file-Every P path contents fs p all.1)
]

pub write_file-origin :
    (path contents p c : List ℕ) (files : Tree)
    → file_at p (write_file path contents files) ≡ some c
    → (file_at p files ≡ some c) ⊎ (c ≡ contents)
write_file-origin path contents p c files held = elim (Bool-cases (p ≟ path)) [
  | inr other ↦ inl (sym (file_at-write_file_other p path contents files other) ∙ held)
  | inl same ↦
      let e : p ≡ path = (≟_iff p path).0 same in
      inr (cc (rw e at held, file_at-write_file_same path contents files))
]

pub write_new-files :
    (path contents : List ℕ) (disk disk' : Disk)
    → write_new path contents disk ≡ ok disk'
    → disk'.files ≡ write_file path contents disk.files
unfolding write_new
write_new-files path contents disk disk' e =
    require-elim (not (any_is_file (parents path) disk.files)) "FileExistsError" e λ _ e₁.
      require-elim (not (is_directory_at path disk)) "IsADirectoryError" e₁
        λ _ e₂. rw (sym (ok-injective e₂)) refl

pub make_directory-files :
    (path : List ℕ) (disk disk' : Disk)
    → make_directory path disk ≡ ok disk'
    → disk'.files ≡ disk.files
unfolding make_directory
make_directory-files path disk disk' e =
    require-elim (not (any_is_file (path ∷ parents path) disk.files)) "FileExistsError" e
      λ _ e₁. rw (sym (ok-injective e₁)) refl

pub copy_mode-files :
    (mode : Option ℕ) (path : List ℕ) (disk : Disk) → (copy_mode mode path disk).files ≡ disk.files
unfolding set_mode
copy_mode-files none path disk = refl
copy_mode-files (some mode) path disk = refl
