-- ===== src/Sources/Aliases.antt =====
-- scripts/sources.py: `unpack`, the aliases of an archive, each followed to a regular file.
use artbox.Base.{
  ℕ, zero, suc, ◌||◌, not, if◌then◌else◌, true, false, Option, none, some, List, [], ◌∷◌, ◌++◌,
  Result, ok, err, require, ◌>>=◌, ◌>>◌,
}
use artbox.Base.Text.{◌≟◌}
use artbox.Paths.{slash, dot_dot, contains, has_char, is_absolute, parents, dirname, join, normpath}
use artbox.Sources.Archive.{
  is_regular, is_directory, is_symlink, Member, no_plan, starts_with, add_members,
}

-- `entries.get(name)`
unfoldable pub lookup : List ℕ → List (List ℕ × Member) → Option Member
lookup name [] = none
lookup name (e ∷ es) = let rest = lookup name es in if name ≟ e.0 then some e.1 else rest

-- No ancestor of a path is a file.
unfoldable pub check_parent : List (List ℕ × Member) → List ℕ → Result (Unit {0})
check_parent entries parent = elim (lookup parent entries) [
  | none ↦ ok tt
  | some ancestor ↦ require (is_directory ancestor.kind) "Source file occupies a directory path"
]

unfoldable pub check_parents : List (List ℕ × Member) → List (List ℕ) → Result (Unit {0})
check_parents entries [] = ok tt
check_parents entries (parent ∷ rest) = do check_parent entries parent; check_parents entries rest

-- Where the link of a member leads from its path.
abbrev pub link_target : List ℕ → List ℕ → List ℕ
link_target current linkname = normpath (join (dirname current) linkname)

-- One round of `while member.issym()`, after its check of `seen`.
unfoldable pub follow : List (List ℕ × Member) → List ℕ → Member → Result (List ℕ × Member)
follow entries current member = do
  require
      (not
        (is_absolute member.linkname || has_char 58 member.linkname || has_char 92 member.linkname))
      "Unsafe source alias"
  let next = link_target current member.linkname
  require (not (next ≟ dot_dot || starts_with next (dot_dot ++ slash ∷ [])))
      "Source alias escapes the extracted tree"
  elim (lookup next entries) [
    | none ↦ err "Source alias escapes the extracted tree"
    | some found ↦ do
      require (not (is_directory found.kind))
          "Directory aliases require an explicit source selection"
      ok (next, found)
  ]

-- `while member.issym()`, with the rounds that are left: `32 - len(seen)`.
unfoldable pub resolve :
    List (List ℕ × Member) → ℕ → List (List ℕ) → List ℕ → Member → Result Member
resolve entries zero seen current member =
    if is_symlink member.kind then err "Source alias cycle" else ok member
resolve entries (suc left) seen current member = elim (is_symlink member.kind) [
  | false ↦ ok member
  | true ↦ do
    require (not (contains current seen)) "Source alias cycle"
    (next, found) ← follow entries current member
    resolve entries left (current ∷ seen) next found
]

-- `for name, member in entries.items()`, to the dict `copies` in the order of insertion.
unfoldable pub copies_of :
    List (List ℕ × Member) → List (List ℕ × Member) → Result (List (List ℕ × Member))
copies_of entries [] = ok []
copies_of entries (e ∷ es) = do
  check_parents entries (parents e.0)
  source ← resolve entries 32 [] e.0 e.1
  rest ← copies_of entries es
  ok (if is_regular source.kind then (e.0, source) ∷ rest else rest)

-- `unpack` up to the point where it writes: the paths and the members that are copied there.
unfoldable pub plan_copies :
    (List ℕ → List ℕ) → List (List ℕ) → List Member → Result (List (List ℕ × Member))
plan_copies fold exclude members = do
  plan ← add_members fold exclude no_plan members
  copies_of plan.entries plan.entries
