-- ===== src/Sources/Archive.antt =====
-- scripts/sources.py: `unpack`, the members of an archive one by one. The case folding of the code
-- is `str.casefold`; here it is any function on texts.
use artbox.Base.{
  ℕ, ◌*◌, ltb, ◌==◌, ◌&&◌, ◌||◌, not, if◌then◌else◌, Bool, true, false, Option, none, some, List,
  [], ◌∷◌, ◌++◌, length, Result, ok, require, ◌>>=◌, ◌>>◌,
}
use artbox.Base.Int.{ℤ, pos, ltb_ℤ, ◌+ℤ◌}
use artbox.Base.Text.{◌≟◌}
use artbox.Paths.{slash, dot_dot, is_nil, contains, has_char, is_absolute, parts, as_posix}

pub data Kind : Type 0 where
  regular : Kind
  directory : Kind
  symlink : Kind
  other : Kind

abbrev pub is_regular : Kind → Bool
is_regular Kind.regular = true
is_regular Kind.directory = false
is_regular Kind.symlink = false
is_regular Kind.other = false

abbrev pub is_directory : Kind → Bool
is_directory Kind.directory = true
is_directory Kind.regular = false
is_directory Kind.symlink = false
is_directory Kind.other = false

abbrev pub is_symlink : Kind → Bool
is_symlink Kind.symlink = true
is_symlink Kind.regular = false
is_symlink Kind.directory = false
is_symlink Kind.other = false

-- What the code reads of a `tarfile.TarInfo`; its content stays in the archive.
pub record Member : Type 0 where
  pub name : List ℕ
  pub kind : Kind
  pub size : ℤ
  pub linkname : List ℕ
  pub mode : ℕ

-- `entries` in the order of insertion, `names`, `prefix` and `total`.
pub record Plan : Type 0 where
  pub entries : List (List ℕ × Member)
  pub names : List (List ℕ)
  pub prefix : Option (List ℕ)
  pub total : ℤ

abbrev pub no_plan : Plan
no_plan = record { entries = []; names = []; prefix = none; total = pos 0 }

abbrev pub is_unsafe : List ℕ → Bool
is_unsafe name =
    is_absolute name
    || is_nil (parts name)
    || contains dot_dot (parts name)
    || has_char 58 name
    || has_char 92 name

-- `name == value or name.startswith(value + "/")`
unfoldable pub starts_with : List ℕ → List ℕ → Bool
starts_with text [] = true
starts_with [] (c ∷ cs) = false
starts_with (t ∷ ts) (c ∷ cs) = t == c && starts_with ts cs

abbrev pub is_excluded : List (List ℕ) → List ℕ → Bool
is_excluded [] name = false
is_excluded (value ∷ values) name =
    name ≟ value || starts_with name (value ++ slash ∷ []) || is_excluded values name

-- `prefix or path.parts[0]`
abbrev pub root_of : Option (List ℕ) → List (List ℕ) → List ℕ
root_of (some prefix) words = prefix
root_of none [] = []
root_of none (w ∷ ws) = w

abbrev pub first_is : List ℕ → List (List ℕ) → Bool
first_is prefix [] = false
first_is prefix (w ∷ ws) = w ≟ prefix

abbrev pub rest_of : List (List ℕ) → List (List ℕ)
rest_of [] = []
rest_of (w ∷ ws) = ws

module _ (fold : List ℕ → List ℕ) where
  -- An entry that is not excluded.
  unfoldable pub add_entry : Plan → List ℕ → List ℕ → Member → Result Plan
  add_entry plan prefix name member = do
    require (not (contains (fold name) plan.names)) "Duplicate source archive path"
    require (is_regular member.kind || is_directory member.kind || is_symlink member.kind)
        "Unsupported source archive member type"
    let total = plan.total +ℤ member.size
    let names = plan.names ++ fold name ∷ []
    require
        (not (
          ltb_ℤ member.size (pos 0)
          || ltb_ℤ (pos (512 * 1024 * 1024)) total
          || ltb 100000 (length names)))
        "Source archive exceeds extraction bounds"
    ok (record {
      entries = plan.entries ++ (name, member) ∷ [];
      names = names;
      prefix = some prefix;
      total = total;
    })

  -- The rest of a path whose first component is the prefix.
  unfoldable pub add_below : List (List ℕ) → Plan → List ℕ → List (List ℕ) → Member → Result Plan
  add_below exclude plan prefix [] member = do
    require (is_directory member.kind) "Source archive root is not a directory"
    ok (record plan { prefix = some prefix })
  add_below exclude plan prefix (w ∷ ws) member =
      if is_excluded exclude (as_posix (w ∷ ws))
      then ok (record plan { prefix = some prefix })
      else add_entry plan prefix (as_posix (w ∷ ws)) member

  unfoldable pub add_member : List (List ℕ) → Plan → Member → Result Plan
  add_member exclude plan member = do
    require (not (is_unsafe member.name)) "Unsafe source archive path"
    let prefix = root_of plan.prefix (parts member.name)
    require (first_is prefix (parts member.name)) "Source archive has multiple roots"
    add_below exclude plan prefix (rest_of (parts member.name)) member

  -- `for member in bundle.getmembers()`
  unfoldable pub add_members : List (List ℕ) → Plan → List Member → Result Plan
  add_members exclude plan [] = ok plan
  add_members exclude plan (member ∷ members) = do
    plan' ← add_member exclude plan member
    add_members exclude plan' members
