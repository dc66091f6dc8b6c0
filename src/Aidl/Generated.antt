-- ===== src/Aidl/Generated.antt =====
-- scripts/binder_aidl.py: what `generate` has kept when it returns.
use artbox.Base.{
  ++-nil, ◌&&◌, ◌||◌, not, if◌then◌else◌, Bool, true, false, String, List, [], ◌∷◌, ◌++◌, ℕ, ok,
  err, ◌≡◌, refl, ap, ap₂, ◌∙◌, and-eq-true,
}
use artbox.Base.Text.{◌≟◌, ≟_iff}
use artbox.Paths.{is_nil, contains}
use artbox.Paths.Laws.{Every}
use artbox.Sources.Selection.{all_in}
use artbox.Sources.Streamed.{all_in-Every}
use artbox.Tree.{Tree, paths_of}
use artbox.Aidl.Generate.{expected_files, all_filled, Digests, same_digests, generated_files}

pub same_digests-eq : (ds es : Digests) → same_digests ds es ≡ true → ds ≡ es
unfolding same_digests
same_digests-eq [] [] h = refl
same_digests-eq [] (e ∷ es) h = cc
same_digests-eq (d ∷ ds) [] h = cc
same_digests-eq (d ∷ ds) (e ∷ es) h =
    let (here, rest) = and-eq-true (d.0 ≟ e.0 && d.1 ≟ e.1) (same_digests ds es) h in
    let (name, hash) = and-eq-true (d.0 ≟ e.0) (d.1 ≟ e.1) here in
    let first : d.0 ≡ e.0 = (≟_iff d.0 e.0).0 name in
    let second : d.1 ≡ e.1 = (≟_iff d.1 e.1).0 hash in
    ap₂ (λ (x : List ℕ × List ℕ) (xs : Digests). x ∷ xs)
      (ap₂ (λ (a b : List ℕ). (a, b)) first second) (same_digests-eq ds es rest)

is_nil-eq : {A : Type 0} (xs : List A) → is_nil xs ≡ true → xs ≡ []
is_nil-eq [] h = refl
is_nil-eq (x ∷ xs) h = cc

-- Exactly the expected files, regular and not empty, with these digests.
pub record IsComplete (digest : List ℕ → List ℕ) (files : Tree) (links : List (List ℕ))
    (digests : Digests) : Type 0 where
  pub present : Every (λ name. contains name (paths_of files) ≡ true) expected_files
  pub known : Every (λ name. contains name expected_files ≡ true) (paths_of files)
  pub regular : links ≡ []
  pub filled : all_filled files ≡ true
  pub hashed : generated_files digest files links ≡ ok digests

conditions :
    {A : Type 0} (a b c : Bool) (message : String) (given found : A)
    → (if not a || not b || not c then err message else ok given) ≡ ok found
    → (a ≡ true) × (b ≡ true) × (c ≡ true)
conditions true true true message given found e = (refl, refl, refl)
conditions true true false message given found e = cc
conditions true false c message given found e = cc
conditions false b c message given found e = cc

pub generated_files-IsComplete :
    (digest : List ℕ → List ℕ) (files : Tree) (links : List (List ℕ)) (digests : Digests)
    → generated_files digest files links ≡ ok digests
    → IsComplete digest files links digests
unfolding generated_files
generated_files-IsComplete digest files links digests e =
    let (same, regular, filled) =
      conditions
        (all_in expected_files (paths_of files ++ links)
          && all_in (paths_of files ++ links) expected_files)
        (is_nil links) (all_filled files) _ _ digests e in
    let (all, none_else) =
      and-eq-true (all_in expected_files (paths_of files ++ links))
        (all_in (paths_of files ++ links) expected_files) same in
    let no_links : links ≡ [] = is_nil-eq links regular in
    let alone : paths_of files ++ links ≡ paths_of files =
      ap (paths_of files ++◌) no_links ∙ ++-nil (paths_of files) in
    record {
      present = rw alone at (all_in-Every expected_files (paths_of files ++ links) all);
      known = rw alone at (all_in-Every (paths_of files ++ links) expected_files none_else);
      regular = no_links;
      filled = filled;
      hashed = e;
    }
