-- ===== src/Sources/Selection.antt =====
-- scripts/sources.py: `obtain_files`, the checks of a pinned selection, and `unpack_selected`, which
-- streams just those files out of an archive. Digests and case folding are parameters.
use artbox.Base.{
  ℕ, leb, ◌==◌, ◌&&◌, ◌||◌, not, if◌then◌else◌, Bool, true, false, Option, none, some, List, [],
  ◌∷◌, ◌++◌, length, Result, ok, err, require, ◌>>=◌, ◌>>◌,
}
use artbox.Base.Int.{ℤ, pos, ltb_ℤ, leb_ℤ}
use artbox.Base.Text.{codes, ◌≟◌}
use artbox.Paths.{is_nil, contains, parts, as_posix, parents}
use artbox.Sources.Archive.{is_regular, is_directory, Member, is_unsafe, root_of, first_is, rest_of}

-- An entry of `spec["files"]`.
pub record Pin : Type 0 where
  pub path : List ℕ
  pub bytes : ℤ
  pub sha256 : List ℕ
  pub git_blob : Option (List ℕ)

-- The parts of `spec` that the checks read.
pub record Spec : Type 0 where
  pub commit : List ℕ
  pub files : List Pin
  pub notice : List ℕ
  pub notice_sha256 : List ℕ

abbrev is_between : ℕ → ℕ → ℕ → Bool
is_between low high c = leb low c && leb c high

-- `re.fullmatch(r"[0-9a-f]{n}", text)`
unfoldable pub all_hex : List ℕ → Bool
all_hex [] = true
all_hex (c ∷ cs) = (is_between 48 57 c || is_between 97 102 c) && all_hex cs

abbrev pub is_hex : ℕ → List ℕ → Bool
is_hex n text = length text == n && all_hex text

-- `re.fullmatch(r"[a-z0-9][a-z0-9_-]*", name)`
abbrev is_word : ℕ → Bool
is_word c = is_between 97 122 c || is_between 48 57 c

unfoldable pub all_name : List ℕ → Bool
all_name [] = true
all_name (c ∷ cs) = (is_word c || c == 95 || c == 45) && all_name cs

unfoldable pub is_name : List ℕ → Bool
is_name [] = false
is_name (c ∷ cs) = is_word c && all_name cs

abbrev pub Selected : Type 0
Selected = List (List ℕ × Pin)

unfoldable pub keys_of : Selected → List (List ℕ)
keys_of [] = []
keys_of (s ∷ ss) = s.0 ∷ keys_of ss

-- `selected.get(key)`
unfoldable pub pin_of : List ℕ → Selected → Option Pin
pin_of key [] = none
pin_of key (s ∷ ss) = let rest = pin_of key ss in if key ≟ s.0 then some s.1 else rest

abbrev pub is_blob : Option (List ℕ) → Bool
is_blob none = true
is_blob (some blob) = is_hex 40 blob

-- `any(parent.as_posix() in selected for parent in PurePosixPath(key).parents)`
unfoldable pub any_selected : List (List ℕ) → List (List ℕ) → Bool
any_selected [] keys = false
any_selected (parent ∷ rest) keys = contains parent keys || any_selected rest keys

-- `for key in selected`
unfoldable pub check_nested : List (List ℕ) → List (List ℕ) → Result (Unit {0})
check_nested [] keys = ok tt
check_nested (key ∷ rest) keys = do
  require (not (any_selected (parents key) keys)) "Pinned source file occupies a directory path"
  check_nested rest keys

module _ (fold : List ℕ → List ℕ) where
  unfoldable pub check_pin : Selected → Pin → Result (Unit {0})
  check_pin selected pin = do
    require
        (not (
          is_unsafe pin.path
          || not (as_posix (parts pin.path) ≟ pin.path)
          || fold pin.path ≟ codes ".artbox-source.json"))
        "Unsafe pinned source file path"
    require
        (not (
          contains (fold pin.path) (keys_of selected)
          || ltb_ℤ pin.bytes (pos 0)
          || not (is_hex 64 pin.sha256)))
        "Duplicate or invalid pinned source file"
    require (is_blob pin.git_blob) "Invalid pinned Git blob"

  -- `for entry in spec["files"]`
  unfoldable pub select_pins : Selected → List Pin → Result Selected
  select_pins selected [] = ok selected
  select_pins selected (pin ∷ pins) = do
    check_pin selected pin
    select_pins (selected ++ (fold pin.path, pin) ∷ []) pins

  unfoldable pub check_notice : Spec → Option Pin → Result (Unit {0})
  check_notice spec none = err "Pinned source selection must include its reviewed notice"
  check_notice spec (some pin) =
      require (pin.path ≟ spec.notice && pin.sha256 ≟ spec.notice_sha256)
        "Pinned source selection must include its reviewed notice"

  -- The dict `selected`.
  unfoldable pub select_files : List ℕ → Spec → Result Selected
  select_files name spec = do
    require (is_name name && is_hex 40 spec.commit) "Invalid pinned source name or commit"
    selected ← select_pins [] spec.files
    require (not (is_nil selected)) "Empty pinned source selection"
    check_nested (keys_of selected) (keys_of selected)
    check_notice spec (pin_of (fold spec.notice) selected)
    ok selected

-- `seen`, `prefix`, and what was written: the path and the member.
pub record Stream : Type 0 where
  pub seen : List (List ℕ)
  pub prefix : Option (List ℕ)
  pub written : List (List ℕ × Member)

abbrev pub no_stream : Stream
no_stream = record { seen = []; prefix = none; written = [] }

unfoldable pub all_in : List (List ℕ) → List (List ℕ) → Bool
all_in [] ys = true
all_in (x ∷ xs) ys = contains x ys && all_in xs ys

module _ (fold : List ℕ → List ℕ) (selected : Selected) where
  -- A member at a path below the root, with what is pinned there.
  unfoldable pub write_pinned : Stream → List ℕ → List ℕ → Pin → Member → Result Stream
  write_pinned stream prefix name pin member = do
    require
        (not (
          contains (fold name) stream.seen
          || not (name ≟ pin.path)
          || not (is_regular member.kind)))
        "Duplicate, aliased or non-regular selected source"
    require (leb_ℤ member.size pin.bytes && leb_ℤ pin.bytes member.size)
        "Selected archive file size differs from the pin"
    ok (record {
      seen = stream.seen ++ fold name ∷ [];
      prefix = some prefix;
      written = stream.written ++ (pin.path, member) ∷ [];
    })

  unfoldable pub stream_below : Stream → List ℕ → List (List ℕ) → Member → Result Stream
  stream_below stream prefix [] member = do
    require (is_directory member.kind) "Source archive root is not a directory"
    ok (record stream { prefix = some prefix })
  stream_below stream prefix (w ∷ ws) member = elim (pin_of (fold (as_posix (w ∷ ws))) selected) [
    | none ↦ ok (record stream { prefix = some prefix })
    | some pin ↦ write_pinned stream prefix (as_posix (w ∷ ws)) pin member
  ]

  unfoldable pub stream_member : Stream → Member → Result Stream
  stream_member stream member = do
    require (not (is_unsafe member.name)) "Unsafe source archive path"
    let prefix = root_of stream.prefix (parts member.name)
    require (first_is prefix (parts member.name)) "Source archive has multiple roots"
    stream_below stream prefix (rest_of (parts member.name)) member

  -- `for member in bundle`
  unfoldable pub stream_members : Stream → List Member → Result Stream
  stream_members stream [] = ok stream
  stream_members stream (member ∷ members) = do
    stream' ← stream_member stream member
    stream_members stream' members

  unfoldable pub unpack_selected : List Member → Result (List (List ℕ × Member))
  unpack_selected members = do
    stream ← stream_members no_stream members
    require (all_in stream.seen (keys_of selected) && all_in (keys_of selected) stream.seen)
        "Source archive is missing selected files"
    ok stream.written

-- `verify(directory)`: the bytes of a path are a parameter, `none` where no file is or it leads out.
module _ (digest : List ℕ → List ℕ) (blob_digest : List ℕ → List ℕ)
    (read : List ℕ → Option (List ℕ)) where
  unfoldable pub check_bytes : Pin → List ℕ → Result (Unit {0})
  check_bytes pin bytes = do
    require (leb_ℤ (pos (length bytes)) pin.bytes && leb_ℤ pin.bytes (pos (length bytes)))
        "Source file size differs from the pin"
    require (digest bytes ≟ pin.sha256) "Source file SHA-256 differs from the pin"
    elim pin.git_blob [
      | none ↦ ok tt
      | some blob ↦ require (blob_digest bytes ≟ blob) "Git blob content differs from the pin"
    ]

  unfoldable pub verify : Selected → Result (Unit {0})
  verify [] = ok tt
  verify (s ∷ ss) = elim (read s.1.path) [
    | none ↦ err "Cached source file is missing or escapes its tree"
    | some bytes ↦ do check_bytes s.1 bytes; verify ss
  ]
