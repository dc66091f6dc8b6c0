-- ===== src/Adapt/Host.antt =====
-- scripts/art_host_adapt.py: `adapt_sources`, which writes the selection of ART sources with its
-- host-build edits into a tree of its own. SHA-256, `str.casefold` and where a path leads to after its
-- symbolic links are parameters.
pub mod Loaded
pub mod Edited
pub mod Output
use artbox.Base.{
  ℕ, ◌&&◌, ◌||◌, not, Bool, true, false, Option, none, some, List, [], ◌∷◌, ◌++◌, Result, ok, err,
  require, ◌>>=◌, ◌>>◌,
}
use artbox.Base.Text.{◌≟◌}
use artbox.Base.Utf8.{decode, encode}
use artbox.Paths.{contains, parts, as_posix}
use artbox.Sources.Archive.{is_unsafe}
use artbox.Tree.{File, Tree, file_at, write_file, write_all, paths_of}
use artbox.Adapt.Replace.{replace_unique}
use artbox.Adapt.Bionic.{Replacement, Edit, is_relative_to}

-- An entry of the selection: a path and the SHA-256 of its bytes.
pub record Item : Type 0 where
  pub path : List ℕ
  pub sha256 : List ℕ

-- An entry of the records that are returned.
pub record HostRecord : Type 0 where
  pub path : List ℕ
  pub upstream_sha256 : List ℕ
  pub adapted_sha256 : List ℕ

-- `original.read_bytes()`
abbrev pub read_bytes : Option (List ℕ) → Result (List ℕ)
read_bytes none = err "FileNotFoundError"
read_bytes (some bytes) = ok bytes

-- `for replacement in item['replacements']`
unfoldable pub edit_text : List Replacement → List ℕ → Result (List ℕ)
edit_text [] text = ok text
edit_text (r ∷ rs) text = do
  text' ← replace_unique "ART adaptation context is missing or ambiguous" r.0 r.1 text
  edit_text rs text'

module _ (digest : List ℕ → List ℕ) (source_stays output_stays : List ℕ → Bool)
    (source : Tree) where
  -- `for item in selection`: the dict `prepared`, whose keys are the names as they are spelled.
  unfoldable pub load_selection : (List ℕ → List ℕ) → List (List ℕ) → List Item → Result (List File)
  load_selection fold seen [] = ok []
  load_selection fold seen (item ∷ items) = do
    let name = as_posix (parts item.path)
    require (not (is_unsafe item.path || contains (fold item.path) seen))
        "Unsafe or duplicate ART selection path"
    require (source_stays name && output_stays name) "ART source path escapes its tree"
    bytes ← read_bytes (file_at name source)
    require (digest bytes ≟ item.sha256) "ART source changed"
    rest ← load_selection fold (fold item.path ∷ seen) items
    ok ((item.path, bytes) ∷ rest)

module _ (digest : List ℕ → List ℕ) where
  -- `name not in prepared or name in edited`
  unfoldable pub selected_bytes : List (List ℕ) → Edit → Option (List ℕ) → Result (List ℕ)
  selected_bytes edited edit none = err "ART adaptation is duplicate or outside the selection"
  selected_bytes edited edit (some original) = do
    require (not (contains edit.path edited)) "ART adaptation is duplicate or outside the selection"
    require (digest original ≟ edit.sha256) "ART adaptation source hash changed"
    ok original

  -- `for item in patch['files']`, with `edited`: the records, and `prepared` afterwards.
  unfoldable pub edit_files :
      List (List ℕ) → List File → List Edit → Result (List HostRecord × List File)
  edit_files edited prepared [] = ok ([], prepared)
  edit_files edited prepared (edit ∷ edits) = do
    original ← selected_bytes edited edit (file_at edit.path prepared)
    text ← decode original
    text' ← edit_text edit.replacements text
    contents ← encode text'
    rest ← edit_files (edit.path ∷ edited) (write_file edit.path contents prepared) edits
    ok (
      record { path = edit.path; upstream_sha256 = edit.sha256; adapted_sha256 = digest contents }
          ∷ rest.0,
      rest.1,
    )

unfoldable pub all_contained : List (List ℕ) → List (List ℕ) → Bool
all_contained [] names = true
all_contained (p ∷ ps) names = contains p names && all_contained ps names

-- `output / name` for each name.
unfoldable pub placed : List File → List File
placed [] = []
placed (f ∷ fs) = (as_posix (parts f.0), f.1) ∷ placed fs

-- The records, and what the output holds afterwards. The paths of the two directories are resolved.
unfoldable pub host_sources :
    (List ℕ → List ℕ)
    → (List ℕ → List ℕ)
    → (List ℕ → Bool)
    → (List ℕ → Bool)
    → List (List ℕ)
    → List (List ℕ)
    → Tree
    → Tree
    → List Item
    → List Edit
    → Result (List HostRecord × Tree)
host_sources fold digest source_stays output_stays source_path output_path source output selection
      edits =
    do
      require
          (not (is_relative_to source_path output_path || is_relative_to output_path source_path))
          "ART host sources must be separate from the original cache"
      loaded ← load_selection digest source_stays output_stays source fold [] selection
      edited ← edit_files digest [] loaded edits
      require (all_contained (paths_of output) (paths_of edited.1))
          "ART host source tree contains files outside this selection"
      ok (edited.0, write_all (placed edited.1) output)
