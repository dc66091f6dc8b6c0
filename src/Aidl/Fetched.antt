-- ===== src/Aidl/Fetched.antt =====
-- scripts/binder_aidl.py: what `fetch_file` leaves in the cache, whether it returns or raises.
use artbox.Base.{
  ℕ, ◌&&◌, ◌||◌, not, true, false, none, List, ◌∷◌, Result, ok, err, ◌>>◌, ◌≡◌, ◌⊎◌, refl, sym, ap,
  ◌∙◌, arith, inl, inr, Bool, Bool-cases, >>=-elim, require-elim, ok-injective,
}
use artbox.Base.Text.{◌≟◌}
use artbox.Paths.{
  is_nil, contains, has_char, is_absolute, dot_dot, parts, as_posix, dirname, join, parents,
}
use artbox.Sources.Selection.{is_hex}
use artbox.Tree.{Tree, file_at, write_file}
use artbox.Tree.Disk.{Disk, exists, make_directory, any_is_file}
use artbox.Tree.Growth.{make_directory-files}
use artbox.Aidl.{
  Input, Store, verify_file, move_verified, fetch_into, fetch_target, is_repository, safe_relative,
  check_request, fetch_checked, fetch_file,
}
use artbox.Aidl.Removed.{exists-none}
use artbox.Aidl.Moved.{
  IsFetched, verify_file-IsPinned, retarget, unchanged, rebase, keep_if-IsFetched,
}

-- Beside the files: no mode and no link has changed, and no directory but the one above the target was
-- made, which is there even if the download then fails.
pub record IsAround (target : List ℕ) (before after : Store) : Type 0 where
  pub directories :
      (after.disk.directories ≡ before.disk.directories)
      ⊎ (after.disk.directories ≡ dirname target ∷ before.disk.directories)
  pub modes : after.disk.modes ≡ before.disk.modes
  pub links : after.links ≡ before.links

unchanged-IsAround : (target : List ℕ) (store : Store) → IsAround target store store
unchanged-IsAround target store = record { directories = inl refl; modes = refl; links = refl }

make_directory-adds :
    (path : List ℕ) (disk disk' : Disk)
    → make_directory path disk ≡ ok disk'
    → (disk'.directories ≡ path ∷ disk.directories) × (disk'.modes ≡ disk.modes)
unfolding make_directory
make_directory-adds path disk disk' e =
    require-elim (not (any_is_file (path ∷ parents path) disk.files)) "FileExistsError" e
      λ _ e₁. rw (sym (ok-injective e₁)) (refl, refl)

module _ (digest : List ℕ → List ℕ) (blob_digest : List ℕ → List ℕ) where
  module _ (item : Input) (target temporary : List ℕ) (store : Store)
      (download : List ℕ × Result (Unit {0})) where
    fetch_into-IsAround :
        (made : Result Disk)
        → make_directory (dirname target) store.disk ≡ made
        → IsAround target store
            (fetch_into digest blob_digest made target temporary item download store).0
    fetch_into-IsAround (err message) made = unchanged-IsAround target store
    fetch_into-IsAround (ok disk) made =
        let (added, modes) = make_directory-adds (dirname target) store.disk disk made in
        record { directories = inr added; modes = modes; links = refl }

    fetch_target-IsAround :
        IsAround target store
          (fetch_target digest blob_digest target temporary item download store).0
    unfolding fetch_target
    fetch_target-IsAround =
        elim (Bool-cases (exists target store.disk || contains target store.links)) [
          | inl there ↦ rw there (unchanged-IsAround target store)
          | inr missing ↦
              rw missing (fetch_into-IsAround (make_directory (dirname target) store.disk) refl)
        ]

  module _ (item : Input) (target temporary : List ℕ) where
    module _ (store : Store) (download : List ℕ × Result (Unit {0}))
        (fresh : file_at temporary store.disk.files ≡ none)
        (apart : (target ≟ temporary) ≡ false) where
      fetch_into-IsFetched :
          (made : Result Disk)
          → make_directory (dirname target) store.disk ≡ made
          → file_at target store.disk.files ≡ none
          → let fetched = fetch_into digest blob_digest made target temporary item download store in
            IsFetched digest blob_digest item target store.disk.files fetched.0.disk.files fetched.1
      unfolding move_verified
      fetch_into-IsFetched (err message) made absent =
          unchanged digest blob_digest item target temporary store.disk.files (err message)
            λ path h. cc
      fetch_into-IsFetched (ok disk) made absent =
          let same : disk.files ≡ store.disk.files =
            make_directory-files (dirname target) store.disk disk made in
          let staged : Tree = write_file temporary download.0 disk.files in
          let kept =
            keep_if-IsFetched digest blob_digest item target temporary disk.files download.0
              (ap (λ (t : Tree). file_at temporary t) same ∙ fresh)
              (ap (λ (t : Tree). file_at target t) same ∙ absent) apart
              (download.1 >> verify_file digest blob_digest temporary item store.links staged)
              (λ e. >>=-elim download.1 e λ _ _ verified.
                verify_file-IsPinned digest blob_digest temporary item store.links staged
                  verified) in
          let fetched =
            fetch_into digest blob_digest (ok disk) target temporary item download store in
          rebase digest blob_digest item target temporary disk.files store.disk.files
            fetched.0.disk.files fetched.1 same kept

      fetch_target-IsFetched :
          let fetched = fetch_target digest blob_digest target temporary item download store in
          IsFetched digest blob_digest item target store.disk.files fetched.0.disk.files fetched.1
      unfolding fetch_target
      fetch_target-IsFetched =
          elim (Bool-cases (exists target store.disk || contains target store.links)) [
            | inl there ↦ rw there (
                unchanged digest blob_digest item target temporary store.disk.files
                  (verify_file digest blob_digest target item store.links store.disk.files
                    >> ok target)
                  λ path h.
                    >>=-elim
                      (verify_file digest blob_digest target item store.links store.disk.files) h
                      λ _ verified is. (
                        sym (ok-injective is),
                        verify_file-IsPinned digest blob_digest target item store.links
                            store.disk.files verified,
                      ))
            | inr missing ↦ rw missing (
                fetch_into-IsFetched (make_directory (dirname target) store.disk) refl
                  (exists-none target store.disk store.links missing))
          ]

  module _ (is_word : ℕ → Bool) (inside : List ℕ → List ℕ → Bool)
      (download : List ℕ → List ℕ → List ℕ → List ℕ × Result (Unit {0})) where
    -- The target lies in the root, at a path without dot-dot.
    pub record IsContained (root : List ℕ) (item : Input) (path : List ℕ) : Type 0 where
      pub joined : path ≡ join root item.path
      pub within_root : inside root path ≡ true
      pub upward : contains dot_dot (parts item.path) ≡ false

    check_request-IsContained :
        (root repository commit : List ℕ) (item : Input) (path : List ℕ)
        → check_request digest blob_digest is_word inside download root repository commit item
          ≡ ok path
        → IsContained root item path
    unfolding check_request safe_relative
    check_request-IsContained root repository commit item path e =
        require-elim (is_repository is_word repository && is_hex 40 commit)
          "Invalid pinned compiler repository or commit" e
          λ _ e₁. >>=-elim (safe_relative item.path) e₁ λ name safe e₂.
            require-elim
              (not (
                is_nil item.path
                || is_nil (parts item.path)
                || is_absolute item.path
                || not (as_posix (parts item.path) ≟ item.path)
                || contains dot_dot (parts item.path)
                || has_char 58 item.path
                || has_char 92 item.path))
              "Compiler input path must be a normalized relative path" safe
              λ kept same.
                require-elim (inside root (join root name))
                  "Compiler cache path escapes its configured directory" e₂
                  λ held is.
                    let named : name ≡ item.path = sym (ok-injective same) in
                    let at : join root name ≡ path = ok-injective is in
                    record {
                      joined = sym at ∙ ap (λ (n : List ℕ). join root n) named;
                      within_root = ap (λ (p : List ℕ). inside root p) (sym at) ∙ held;
                      upward = ground arith;
                    }

    -- What `fetch_file` promises of the cache before and after it.
    pub record IsFetch (root : List ℕ) (item : Input) (before : Store)
        (fetched : Store × Result (List ℕ)) : Type 0 where
      pub files :
          IsFetched digest blob_digest item
            (join root item.path)
            before.disk.files
            fetched.0.disk.files
            fetched.1
      pub around : IsAround (join root item.path) before fetched.0
      pub contained : (path : List ℕ) → fetched.1 ≡ ok path → IsContained root item path

    fetch_checked-IsFetch :
        (root : List ℕ) (request : Result (List ℕ)) (item : Input) (temporary : List ℕ)
        (written : List ℕ × Result (Unit {0})) (store : Store)
        → file_at temporary store.disk.files ≡ none
        → (join root item.path ≟ temporary) ≡ false
        → ((path : List ℕ) → request ≡ ok path → IsContained root item path)
        → IsFetch root item store (
            fetch_checked digest blob_digest is_word inside download request temporary item written
              store)
    fetch_checked-IsFetch root (err message) item temporary written store fresh apart at = record {
      files =
          unchanged digest blob_digest item (join root item.path) temporary store.disk.files
            (err message) λ path h. cc;
      around = unchanged-IsAround (join root item.path) store;
      contained = λ path h. cc;
    }
    fetch_checked-IsFetch root (ok target) item temporary written store fresh apart at =
        let is = (at target refl).joined in
        let fetched =
          fetch_target-IsFetched item target temporary store written fresh
            (ap (λ (p : List ℕ). p ≟ temporary) is ∙ apart) in
        let done = fetch_target digest blob_digest target temporary item written store in
        record {
          files =
              retarget digest blob_digest item target (join root item.path) store.disk.files
                done.0.disk.files done.1 is fetched;
          around = rw (sym is) (fetch_target-IsAround item target temporary store written);
          contained = λ path h. rw (fetched.returned path h).0 (at target refl);
        }

    -- If the temporary name is that of no file and not that of the target: after `fetch_file`,
    -- every path other than the target holds the file that it held, or none, and a file that
    -- was at the target is there as it was. If it raises, no file has changed. Either way no
    -- link and no mode has changed, and no directory, except that the one above the target may
    -- have been made. If it returns, then with the target, at which a file of the pinned size,
    -- SHA-256 and Git blob is; the target is the path of the item below the root, has no dot-
    -- dot and resolves to a path in the root.
    pub fetch_file-IsFetch :
        (root repository commit : List ℕ) (item : Input) (temporary : List ℕ) (store : Store)
        → file_at temporary store.disk.files ≡ none
        → (join root item.path ≟ temporary) ≡ false
        → IsFetch root item store (
            fetch_file digest blob_digest is_word inside download root repository commit item
              temporary store)
    unfolding fetch_file
    fetch_file-IsFetch root repository commit item temporary store fresh apart =
        fetch_checked-IsFetch root
          (check_request digest blob_digest is_word inside download root repository commit item)
          item temporary (download repository commit item.path) store fresh apart
          (check_request-IsContained root repository commit item)
