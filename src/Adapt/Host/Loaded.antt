-- ===== src/Adapt/Host/Loaded.antt =====
-- scripts/art_host_adapt.py: the selection that `adapt_sources` loads.
use artbox.Base.{
  ℕ, ◌&&◌, ◌||◌, not, Bool, true, false, Option, none, some, List, [], ◌∷◌, ok, ◌≡◌, refl, sym,
  arith, inl, inr, Bool-cases, >>=-elim, require-elim, ok-injective,
}
use artbox.Base.Text.{◌≟◌, ≟_iff}
use artbox.Paths.{contains, parts, as_posix}
use artbox.Sources.Archive.{is_unsafe}
use artbox.Sources.Plan.{Distinct}
use artbox.Tree.{File, Tree, file_at, paths_of}
use artbox.Tree.Writes.{≟-refl}
use artbox.Adapt.Unique.{AreFresh, fresh_other, fresh_less}
use artbox.Adapt.Host.{Item, read_bytes, load_selection}

read_bytes-held : (o : Option (List ℕ)) (bytes : List ℕ) → read_bytes o ≡ ok bytes → o ≡ some bytes
read_bytes-held none bytes e = cc
read_bytes-held (some b) bytes e = cc

-- The file of an item of the selection.
pub record IsLoaded (digest : List ℕ → List ℕ) (source : Tree) (item : Item) (file : File)
    : Type 0 where
  pub safe : is_unsafe item.path ≡ false
  pub named : file.0 ≡ item.path
  pub held : file_at (as_posix (parts item.path)) source ≡ some file.1
  pub pinned : item.sha256 ≡ digest file.1

abbrev pub AllLoaded : (List ℕ → List ℕ) → Tree → List Item → List File → Type 0
AllLoaded digest source [] [] = Unit
AllLoaded digest source [] (f ∷ fs) = ⊥
AllLoaded digest source (i ∷ is) [] = ⊥
AllLoaded digest source (i ∷ is) (f ∷ fs) =
    IsLoaded digest source i f × AllLoaded digest source is fs

abbrev pub folded_paths : (List ℕ → List ℕ) → List File → List (List ℕ)
folded_paths fold [] = []
folded_paths fold (f ∷ fs) = fold f.0 ∷ folded_paths fold fs

contains-folded_paths :
    (fold : List ℕ → List ℕ) (path : List ℕ) (fs : List File)
    → contains (fold path) (folded_paths fold fs) ≡ false
    → contains path (paths_of fs) ≡ false
unfolding contains paths_of
contains-folded_paths fold path [] h = refl
contains-folded_paths fold path (f ∷ fs) h = elim (Bool-cases (path ≟ f.0)) [
  | inr other ↦ rw other (contains-folded_paths fold path fs (ground arith))
  | inl same ↦
      let e : path ≡ f.0 = (≟_iff path f.0).0 same in
      let equal : (fold path ≟ fold f.0) ≡ true = rw e (≟-refl (fold f.0)) in cc (rw equal at h)
]

pub paths_of-Distinct :
    (fold : List ℕ → List ℕ) (fs : List File)
    → Distinct (folded_paths fold fs)
    → Distinct (paths_of fs)
unfolding paths_of
paths_of-Distinct fold [] d = tt
paths_of-Distinct fold (f ∷ fs) d =
    (contains-folded_paths fold f.0 fs d.0, paths_of-Distinct fold fs d.1)

both : {a b : Bool} → not (a || b) ≡ true → (a ≡ false) × (b ≡ false)
both h = ground arith

module _ (digest : List ℕ → List ℕ) (source_stays output_stays : List ℕ → Bool)
    (source : Tree) where
  pub load_selection-AllLoaded :
      (fold : List ℕ → List ℕ) (seen : List (List ℕ)) (items : List Item) (loaded : List File)
      → load_selection digest source_stays output_stays source fold seen items ≡ ok loaded
      → AllLoaded digest source items loaded
        × AreFresh seen (folded_paths fold loaded)
        × Distinct (folded_paths fold loaded)
  unfolding load_selection
  load_selection-AllLoaded fold seen [] loaded e = rw (sym (ok-injective e)) (tt, tt, tt)
  load_selection-AllLoaded fold seen (item ∷ items) loaded e =
      let name = as_posix (parts item.path) in
      let key = fold item.path in
      require-elim (not (is_unsafe item.path || contains key seen))
        "Unsafe or duplicate ART selection path" e
        λ passed e₁.
          require-elim (source_stays name && output_stays name) "ART source path escapes its tree"
            e₁
            λ _ e₂. >>=-elim (read_bytes (file_at name source)) e₂ λ bytes read e₃.
              require-elim (digest bytes ≟ item.sha256) "ART source changed" e₃ λ same e₄.
                >>=-elim
                  (load_selection digest source_stays output_stays source fold (key ∷ seen) items)
                  e₄
                  λ rest others e₅.
                    let (all, unseen, distinct) =
                      load_selection-AllLoaded fold (key ∷ seen) items rest others in
                    let keys = folded_paths fold rest in
                    let (safe, fresh) = both passed in
                    rw (sym (ok-injective e₅)) (
                      (
                        record {
                          safe = safe;
                          named = refl;
                          held = read_bytes-held (file_at name source) bytes read;
                          pinned = sym ((≟_iff (digest bytes) item.sha256).0 same);
                        },
                        all,
                      ),
                      (fresh, fresh_less key seen keys unseen),
                      (fresh_other key seen keys unseen, distinct),
                    )
