-- ===== src/Aidl/Moved.antt =====
-- scripts/binder_aidl.py: what the verified move of a downloaded file leaves in the cache.
use artbox.Base.{
  ℕ, ◌==◌, ◌&&◌, not, false, Option, none, some, List, length, String, Result, ok, err, ◌≡◌, refl,
  sym, ap, ◌∙◌, arith, inl, inr, Bool-cases, and-eq-true, require-elim, require-true, ok-injective,
}
use artbox.Base.Text.{◌≟◌, ≟_iff}
use artbox.Paths.{contains}
use artbox.Tree.{Tree, file_at, write_file}
use artbox.Tree.Writes.{file_at-write_file_same, file_at-write_file_other}
use artbox.Aidl.{Input, remove_file, verify_contents, verify_file, keep_if}
use artbox.Aidl.Removed.{file_at-remove_file_same, file_at-remove_file_other, staged-removed}

-- The contents of a path are those that are pinned.
pub record IsPinned (digest blob_digest : List ℕ → List ℕ) (item : Input) (path : List ℕ)
    (files : Tree) : Type 0 where
  pub contents : List ℕ
  pub held : file_at path files ≡ some contents
  pub sized : length contents ≡ item.bytes
  pub hashed : digest contents ≡ item.sha256
  pub stored : blob_digest contents ≡ item.git_blob

-- What is promised of the files: no path but the target changes, and it only changes when the call
-- returns, with the path of a file that is pinned.
pub record IsFetched (digest blob_digest : List ℕ → List ℕ) (item : Input) (target : List ℕ)
    (before after : Tree) (result : Result (List ℕ)) : Type 0 where
  pub others : (path : List ℕ) → (path ≟ target) ≡ false → file_at path after ≡ file_at path before
  pub raised :
      (message : String) (path : List ℕ)
      → result ≡ err message
      → file_at path after ≡ file_at path before
  pub kept :
      (contents : List ℕ)
      → file_at target before ≡ some contents
      → file_at target after ≡ some contents
  pub returned :
      (path : List ℕ)
      → result ≡ ok path
      → (path ≡ target) × IsPinned digest blob_digest item target after

module _ (digest : List ℕ → List ℕ) (blob_digest : List ℕ → List ℕ) where
  verify_contents-IsPinned :
      (item : Input) (path : List ℕ) (files : Tree) (found : Option (List ℕ))
      → file_at path files ≡ found
      → verify_contents digest blob_digest item found ≡ ok tt
      → IsPinned digest blob_digest item path files
  unfolding verify_contents
  verify_contents-IsPinned item path files none held e = cc
  verify_contents-IsPinned item path files (some contents) held e =
      require-elim (length contents == item.bytes)
        "Pinned compiler input is missing or has the wrong size" e
        λ sized e₁.
          let same =
            require-true (digest contents ≟ item.sha256 && blob_digest contents ≟ item.git_blob)
              "Pinned compiler input differs from its SHA-256 or Git blob" e₁ in
          let hashes =
            and-eq-true (digest contents ≟ item.sha256) (blob_digest contents ≟ item.git_blob)
              same in
          record {
            contents = contents;
            held = held;
            sized = ground arith;
            hashed = (≟_iff (digest contents) item.sha256).0 hashes.0;
            stored = (≟_iff (blob_digest contents) item.git_blob).0 hashes.1;
          }

  pub verify_file-IsPinned :
      (path : List ℕ) (item : Input) (links : List (List ℕ)) (files : Tree)
      → verify_file digest blob_digest path item links files ≡ ok tt
      → IsPinned digest blob_digest item path files
  unfolding verify_file
  verify_file-IsPinned path item links files e =
      require-elim (not (contains path links))
        "Pinned compiler input is missing or has the wrong size" e
        λ _ e₁. verify_contents-IsPinned item path files (file_at path files) refl e₁

  pub retarget :
      (item : Input) (target target' : List ℕ) (before after : Tree) (result : Result (List ℕ))
      → target ≡ target'
      → IsFetched digest blob_digest item target before after result
      → IsFetched digest blob_digest item target' before after result
  retarget item target target' before after result same fetched = rw (sym same) fetched

  module _ (item : Input) (target temporary : List ℕ) where
    -- A call that changed nothing, with what it promises if it returns.
    pub unchanged :
        (files : Tree) (result : Result (List ℕ))
        → ((path : List ℕ)
            → result ≡ ok path
            → (path ≡ target) × IsPinned digest blob_digest item target files)
        → IsFetched digest blob_digest item target files files result
    unchanged files result promised = record {
      others = λ path h. refl;
      raised = λ message path h. refl;
      kept = λ contents h. h;
      returned = promised;
    }

    pub rebase :
        (before before' after : Tree) (result : Result (List ℕ))
        → before ≡ before'
        → IsFetched digest blob_digest item target before after result
        → IsFetched digest blob_digest item target before' after result
    rebase before before' after result same fetched = rw (sym same) fetched

    -- The same contents at another path.
    moved-IsPinned :
        (contents : List ℕ) (files after : Tree)
        → (target ≟ temporary) ≡ false
        → IsPinned digest blob_digest item temporary (write_file temporary contents files)
        → IsPinned digest blob_digest item target
            (remove_file temporary (write_file target contents after))
    moved-IsPinned contents files after apart p =
        let is : p.contents ≡ contents =
          cc (p.held, file_at-write_file_same temporary contents files) in
        record {
          contents = contents;
          held =
              file_at-remove_file_other target temporary (write_file target contents after) apart
              ∙ file_at-write_file_same target contents after;
          sized = ap length (sym is) ∙ p.sized;
          hashed = ap digest (sym is) ∙ p.hashed;
          stored = ap blob_digest (sym is) ∙ p.stored;
        }

    module _ (files : Tree) (contents : List ℕ) (fresh : file_at temporary files ≡ none)
        (absent : file_at target files ≡ none) (apart : (target ≟ temporary) ≡ false) where
      other_paths :
          (path : List ℕ)
          → (path ≟ target) ≡ false
          → file_at path (
              remove_file temporary (
                write_file target contents
                  (remove_file temporary (write_file temporary contents files))))
            ≡ file_at path files
      other_paths path h =
          let staged : Tree = write_file temporary contents files in
          let moved : Tree = write_file target contents (remove_file temporary staged) in
          elim (Bool-cases (path ≟ temporary)) [
            | inl same ↦
                let e : temporary ≡ path = sym ((≟_iff path temporary).0 same) in
                ap (λ (p : List ℕ). file_at path (remove_file p moved)) e
                ∙ file_at-remove_file_same path moved
                ∙ sym (ap (λ (p : List ℕ). file_at p files) (sym e) ∙ fresh)
            | inr other ↦
                file_at-remove_file_other path temporary moved other
                ∙ file_at-write_file_other path target contents (remove_file temporary staged) h
                ∙ staged-removed temporary contents path files fresh
          ]

      pub keep_if-IsFetched :
          (outcome : Result (Unit {0}))
          → (outcome ≡ ok tt
              → IsPinned digest blob_digest item temporary (write_file temporary contents files))
          → let kept =
              keep_if digest blob_digest outcome target temporary contents
                (write_file temporary contents files) in
            IsFetched digest blob_digest item target files kept.0 kept.1
      keep_if-IsFetched (err message) pinned = record {
        others = λ path h. staged-removed temporary contents path files fresh;
        raised = λ m path h. staged-removed temporary contents path files fresh;
        kept = λ c h. cc;
        returned = λ path h. cc;
      }
      keep_if-IsFetched (ok passed) pinned = record {
        others = other_paths;
        raised = λ m path h. cc;
        kept = λ c h. cc;
        returned = λ path h. (
          sym (ok-injective h),
          moved-IsPinned contents files
              (remove_file temporary (write_file temporary contents files)) apart (pinned refl),
        );
      }
