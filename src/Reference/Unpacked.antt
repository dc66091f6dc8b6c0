-- ===== src/Reference/Unpacked.antt =====
-- scripts/binder_reference.py: what `unpack_selected` writes.
use artbox.Base.{
  ℕ, ◌||◌, true, false, some, List, [], ◌∷◌, length, take, drop, Result, ok, ◌≡◌, ◌⊎◌,
}
use artbox.Paths.{contains}
use artbox.Paths.Laws.{Every}
use artbox.Sources.Plan.{Distinct}
use artbox.Reference.Archive.{
  Pinned, Packed, without_dot, Selection, pinned_of, selected_names, Written, written_names,
}
use artbox.Reference.Member.{IsPlaced}

-- What is written: a selected name with contents of the pinned size and digest.
pub record IsWritten (digest : List ℕ → List ℕ) (selected : Selection) (w : List ℕ × List ℕ)
    : Type 0 where
  pub pin : Pinned
  pub pinned : pinned_of w.0 selected ≡ some pin
  pub sized : length w.1 ≡ pin.bytes
  pub hashed : digest w.1 ≡ pin.sha256

-- One of the members is a file of this name, but for a leading `./`, and of these contents.
abbrev pub FromMembers : List Packed → List ℕ × List ℕ → Type 0
FromMembers [] w = ⊥
FromMembers (m ∷ ms) w =
    ((m.is_file ≡ true) × (w.0 ≡ without_dot m.name) × (w.1 ≡ m.content)) ⊎ FromMembers ms w

record IsStream (digest : List ℕ → List ℕ) (selected : Selection) (found : List (List ℕ))
    (written : Written) : Type 0 where
  exact : Every (IsWritten digest selected) written
  fresh : Every (λ name. contains name found ≡ false) (written_names written)
  distinct : Distinct (written_names written)
  complete :
      Every
        (λ name. (contains name found || contains name (written_names written)) ≡ true)
        (selected_names selected)

module _ (digest : List ℕ → List ℕ) (selected : Selection) where
  -- What `unpack_selected` has written: selected names, each once, all of them, with contents of the
  -- pinned size and digest; each is a file among the members read from the bytes of the data member,
  -- which lies in the archive.
  pub record IsUnpacked (read_tar : List ℕ → Result (List Packed)) (archive : List ℕ)
      (written : Written) : Type 0 where
    pub place : ℕ × ℕ
    pub placed : IsPlaced archive place
    pub members : List Packed
    pub read : read_tar (take place.1 (drop place.0 archive)) ≡ ok members
    pub from : Every (FromMembers members) written
    pub exact : Every (IsWritten digest selected) written
    pub distinct : Distinct (written_names written)
    pub complete :
        Every (λ name. contains name (written_names written) ≡ true) (selected_names selected)
