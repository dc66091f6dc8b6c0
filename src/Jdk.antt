-- ===== src/Jdk.antt =====
-- scripts/jdk.py: `extract`, which unpacks a JDK archive into an empty directory. `str.casefold` is a
-- parameter; the system is one with POSIX modes.
pub mod Entries
pub mod Kinds
pub mod Loop
pub mod Extracted
pub mod Obtain
mod Tests
use artbox.Base.{
  ℕ, zero, suc, ◌*◌, ◌/◌, ◌%◌, ltb, ◌==◌, ◌&&◌, ◌||◌, not, if◌then◌else◌, Bool, true, false, Option,
  none, some, List, [], ◌∷◌, ◌++◌, length, Result, ok, err, require, ◌>>=◌, ◌>>◌,
}
use artbox.Base.Int.{ℤ, pos, ltb_ℤ, leb_ℤ, ◌+ℤ◌}
use artbox.Base.Text.{◌≟◌}
use artbox.Paths.{
  slash, dot, dot_dot, is_nil, contains, has_char, is_absolute, parts, as_posix, dirname, join,
  normpath,
}
use artbox.Sources.Archive.{is_unsafe, starts_with, first_is, rest_of}
use artbox.Tree.{file_at, write_file}
use artbox.Tree.Disk.{
  Disk, empty_disk, exists, make_directory, write_new, set_mode, mode_at, copy_mode,
}

pub data EntryKind : Type 0 where
  file : EntryKind
  directory : EntryKind
  link : EntryKind
  hardlink : EntryKind
  unsupported : EntryKind

-- The arguments of `entry`; a target that is not given is empty.
pub record Entry : Type 0 where
  pub name : List ℕ
  pub kind : EntryKind
  pub mode : ℕ
  pub size : ℤ
  pub content : List ℕ
  pub target : List ℕ

-- The directory, `seen`, `links` and `total`.
pub record Extraction : Type 0 where
  pub disk : Disk
  pub seen : List (List ℕ)
  pub links : List (List ℕ × List ℕ)
  pub total : ℤ

abbrev pub no_extraction : Extraction
no_extraction = record { disk = empty_disk; seen = []; links = []; total = pos 0 }

abbrev equals : ℤ → ℤ → Bool
equals a b = leb_ℤ a b && leb_ℤ b a

-- `kind == 'file'`
unfoldable pub extract_file : List ℕ → Entry → Disk → Result Disk
extract_file relative e disk = do
  written ← write_new relative e.content disk
  require (equals (pos (length e.content)) e.size) "Truncated JDK archive file"
  ok (set_mode relative (e.mode % 512) written)

-- The target of a hard link, or of a symbolic one, from the root of the tree.
unfoldable pub hard_target : List ℕ → List ℕ → Result (List ℕ)
hard_target root target = do
  require (first_is root (parts target)) "JDK hard link escapes its root"
  ok (as_posix (rest_of (parts target)))

abbrev pub is_hardlink : EntryKind → Bool
is_hardlink EntryKind.hardlink = true
is_hardlink EntryKind.file = false
is_hardlink EntryKind.directory = false
is_hardlink EntryKind.link = false
is_hardlink EntryKind.unsupported = false

-- `kind in ('link', 'hardlink')`
unfoldable pub alias_target : List ℕ → List ℕ → Entry → Result (List ℕ)
alias_target root relative e = do
  require
      (not
        (is_nil e.target || is_absolute e.target || has_char 58 e.target || has_char 92 e.target))
      "Unsafe JDK alias"
  joined ←
      if is_hardlink e.kind
      then hard_target root e.target
      else ok (join (dirname relative) e.target)
  let target = normpath joined
  require (not (target ≟ dot_dot || starts_with target (dot_dot ++ slash ∷ [])))
      "JDK alias escapes its root"
  ok target

unfoldable pub extract_link : List ℕ → List ℕ → Entry → Extraction → Result Extraction
extract_link root relative e x = do
  target ← alias_target root relative e
  ok (record x { links = write_file relative target x.links })

unfoldable pub extract_kind : EntryKind → List ℕ → List ℕ → Entry → Extraction → Result Extraction
extract_kind EntryKind.directory root relative e x = do
  disk ← make_directory relative x.disk
  ok (record x { disk = disk })
extract_kind EntryKind.file root relative e x = do
  disk ← extract_file relative e x.disk
  ok (record x { disk = disk })
extract_kind EntryKind.link root relative e x = extract_link root relative e x
extract_kind EntryKind.hardlink root relative e x = extract_link root relative e x
extract_kind EntryKind.unsupported root relative e x = err "Unsupported JDK archive entry"

abbrev pub is_directory_kind : EntryKind → Bool
is_directory_kind EntryKind.directory = true
is_directory_kind EntryKind.file = false
is_directory_kind EntryKind.link = false
is_directory_kind EntryKind.hardlink = false
is_directory_kind EntryKind.unsupported = false

module _ (fold : List ℕ → List ℕ) (root : List ℕ) where
  -- The rest of `entry`, below the root.
  unfoldable pub extract_below : List ℕ → Entry → Extraction → Result Extraction
  extract_below relative e x = do
    require (not (contains (fold relative) x.seen)) "Duplicate JDK archive path"
    let seen = fold relative ∷ x.seen
    let total = x.total +ℤ e.size
    require
        (not (
          ltb_ℤ e.size (pos 0)
          || ltb_ℤ (pos (1024 * 1024 * 1024)) total
          || ltb 100000 (length seen)))
        "JDK extraction exceeds bounds"
    extract_kind e.kind root relative e
        (record { disk = x.disk; seen = seen; links = x.links; total = total })

  -- At the root or below it.
  unfoldable pub extract_at : Bool → List ℕ → Entry → Extraction → Result Extraction
  extract_at true relative e x =
      require (is_directory_kind e.kind) "JDK root is not a directory" >> ok x
  extract_at false relative e x = extract_below relative e x

  unfoldable pub extract_entry : Entry → Extraction → Result Extraction
  extract_entry e x = do
    require (not (is_unsafe e.name) && first_is root (parts e.name)) "Unsafe JDK archive path"
    let relative = as_posix (rest_of (parts e.name))
    extract_at (relative ≟ dot) relative e x

  -- The loop over the members.
  unfoldable pub extract_entries : List Entry → Extraction → Result Extraction
  extract_entries [] x = ok x
  extract_entries (e ∷ es) x = do x' ← extract_entry e x; extract_entries es x'

-- `while target in links`, with the rounds that are left: `32 - len(visited)`.
unfoldable pub resolve_alias : List (List ℕ × List ℕ) → ℕ → List (List ℕ) → List ℕ → Result (List ℕ)
resolve_alias links zero visited target = elim (file_at target links) [
  | none ↦ ok target
  | some next ↦ err "JDK alias cycle"
]
resolve_alias links (suc left) visited target = elim (file_at target links) [
  | none ↦ ok target
  | some next ↦ do
    require (not (contains target visited)) "JDK alias cycle"
    resolve_alias links left (target ∷ visited) next
]

-- The copy of one alias.
unfoldable pub copy_alias : List ℕ → List ℕ → Disk → Option (List ℕ) → Result Disk
copy_alias name target disk none = err "JDK alias is not an internal file"
copy_alias name target disk (some contents) = do
  require (not (exists name disk)) "JDK alias is not an internal file"
  written ← write_new name contents disk
  ok (copy_mode (mode_at target disk.modes) name written)

-- `for name, target in links.items()`
unfoldable pub copy_aliases : List (List ℕ × List ℕ) → List (List ℕ × List ℕ) → Disk → Result Disk
copy_aliases links [] disk = ok disk
copy_aliases links (l ∷ ls) disk = do
  target ← resolve_alias links 31 (l.0 ∷ []) l.1
  disk' ← copy_alias l.0 target disk (file_at target disk.files)
  copy_aliases links ls disk'

unfoldable pub extract : (List ℕ → List ℕ) → List ℕ → List Entry → Result Disk
extract fold root entries = do
  x ← extract_entries fold root entries no_extraction
  copy_aliases x.links x.links x.disk
