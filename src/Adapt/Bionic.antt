-- ===== src/Adapt/Bionic.antt =====
-- scripts/bionic_adapt.py: `adapt_sources`, which writes an overlay of adapted Bionic sources. SHA-256,
-- `str.casefold` and where a path leads to after its symbolic links are parameters.
pub mod Overlay
use artbox.Base.{
  ℕ, ◌&&◌, ◌||◌, not, Bool, true, false, Option, none, some, List, [], ◌∷◌, ◌++◌, Result, ok, err,
  require, ◌>>=◌, ◌>>◌,
}
use artbox.Base.Text.{codes, ◌≟◌}
use artbox.Base.Utf8.{decode, encode}
use artbox.Paths.{dot_dot, is_nil, contains, has_char, is_absolute, parts, as_posix}
use artbox.Tree.{File, Tree, file_at, write_all, copy_tree}
use artbox.Adapt.Replace.{replace_unique}

-- An entry of `edit["replacements"]`: `before` and `after`.
abbrev pub Replacement : Type 0
Replacement = List ℕ × List ℕ

-- An entry of `patch["files"]`.
pub record Edit : Type 0 where
  pub path : List ℕ
  pub sha256 : List ℕ
  pub replacements : List Replacement

-- An entry of `records`, and the bytes that `prepared` holds with it.
pub record Adapted : Type 0 where
  pub path : List ℕ
  pub upstream_sha256 : List ℕ
  pub adapted_sha256 : List ℕ
  pub contents : List ℕ

-- `path.is_relative_to(base)` of two paths as their parts.
unfoldable pub is_relative_to : List (List ℕ) → List (List ℕ) → Bool
is_relative_to path [] = true
is_relative_to [] (b ∷ bs) = false
is_relative_to (p ∷ ps) (b ∷ bs) = p ≟ b && is_relative_to ps bs

-- The test of `PurePosixPath(path)`.
abbrev pub is_unsafe_edit : List ℕ → Bool
is_unsafe_edit path =
    is_absolute path
    || is_nil (parts path)
    || contains dot_dot (parts path)
    || has_char 92 (as_posix (parts path))
    || has_char 58 (as_posix (parts path))

-- `for replacement in edit["replacements"]`
unfoldable pub apply_all : List Replacement → List ℕ → Result (List ℕ)
apply_all [] text = ok text
apply_all (r ∷ rs) text = do
  text' ← replace_unique "Bionic patch context is missing or ambiguous" r.0 r.1 text
  apply_all rs text'

-- `path.is_file()` and the bytes of it.
unfoldable pub input_of : Bool → Option (List ℕ) → Result (List ℕ)
input_of stays none = err "Invalid Bionic patch input"
input_of stays (some bytes) = require stays "Invalid Bionic patch input" >> ok bytes

module _ (digest : List ℕ → List ℕ) (source_stays overlay_stays : List ℕ → Bool)
    (source : Tree) where
  -- The body of the loop from the check of the input on.
  unfoldable pub adapt_file : List ℕ → Edit → Result Adapted
  adapt_file name edit = do
    original ← input_of (source_stays name && overlay_stays name) (file_at name source)
    require (digest original ≟ edit.sha256) "Bionic patch source hash changed"
    text ← decode original
    text' ← apply_all edit.replacements text
    contents ← encode text'
    ok (record {
      path = name;
      upstream_sha256 = digest original;
      adapted_sha256 = digest contents;
      contents = contents;
    })

  -- `for edit in patch["files"]`, with `seen`.
  unfoldable pub adapt_files : (List ℕ → List ℕ) → List (List ℕ) → List Edit → Result (List Adapted)
  adapt_files fold seen [] = ok []
  adapt_files fold seen (edit ∷ edits) = do
    require (not (is_unsafe_edit edit.path)) "Unsafe Bionic patch path"
    let name = as_posix (parts edit.path)
    require (not (contains (fold name) seen)) "Duplicate Bionic patch path"
    adapted ← adapt_file name edit
    rest ← adapt_files fold (fold name ∷ seen) edits
    ok (adapted ∷ rest)

unfoldable pub writes_of : List Adapted → List File
writes_of [] = []
writes_of (a ∷ rest) = (a.path, a.contents) ∷ writes_of rest

-- The records, and what the overlay holds afterwards. The paths of the two directories are resolved.
unfoldable pub adapt_sources :
    (List ℕ → List ℕ)
    → (List ℕ → List ℕ)
    → (List ℕ → Bool)
    → (List ℕ → Bool)
    → List (List ℕ)
    → List (List ℕ)
    → Tree
    → Tree
    → List Edit
    → Result (List Adapted × Tree)
adapt_sources fold digest source_stays overlay_stays source_path overlay_path source overlay edits =
    do
      require
          (not (is_relative_to source_path overlay_path || is_relative_to overlay_path source_path))
          "The Bionic overlay must be separate from its original source"
      adapted ← adapt_files digest source_stays overlay_stays source fold [] edits
      overlay' ← copy_tree (codes "libc/platform") source overlay
      ok (adapted, write_all (writes_of adapted) overlay')
