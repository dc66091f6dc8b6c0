-- ===== src/Reference/Archive.antt =====
-- scripts/binder_reference.py: `unpack_selected`, which finds the data member of a Debian archive and
-- streams the selected files out of it. SHA-256 and the reading of a tar stream are parameters.
use artbox.Base.{
  ℕ, zero, suc, ◌+◌, ◌*◌, ◌-◌, ◌%◌, ltb, leb, ◌==◌, ◌&&◌, ◌||◌, not, if◌then◌else◌, Bool, true,
  false, Option, none, some, List, [], ◌∷◌, length, take, drop, Result, ok, err, require, ◌>>=◌,
  ◌>>◌,
}
use artbox.Base.Int.{ℤ, pos, negsuc, pos_part, leb_ℤ, ltb_ℤ}
use artbox.Base.Text.{codes, ◌≟◌}
use artbox.Paths.{is_nil, contains}
use artbox.Sources.Selection.{all_in}
use artbox.Shell.{strip}

-- The pinned size and digest of a file.
pub record Pinned : Type 0 where
  pub bytes : ℕ
  pub sha256 : List ℕ

-- A member of the tar stream, as far as the code reads it.
pub record Packed : Type 0 where
  pub name : List ℕ
  pub is_file : Bool
  pub size : ℤ
  pub content : List ℕ

-- The digits of `int(text)`, with an underscore allowed between two of them.
unfoldable pub digits_from : ℕ → Bool → List ℕ → Option ℕ
digits_from value after_digit [] = if after_digit then some value else none
digits_from value after_digit (c ∷ cs) =
    let rest = digits_from (value * 10 + (c - 48)) true cs in
    let skipped = digits_from value false cs in
    if leb 48 c && leb c 57 then rest else if c == 95 && after_digit then skipped else none

abbrev negated : ℕ → ℤ
negated zero = pos 0
negated (suc n) = negsuc n

abbrev or_value_error : (ℕ → ℤ) → Option ℕ → Result ℤ
or_value_error sign none = err "ValueError"
or_value_error sign (some n) = ok (sign n)

-- `int(text)` of an ASCII text that has no spaces around it.
unfoldable pub int_of_text : List ℕ → Result ℤ
int_of_text [] = err "ValueError"
int_of_text (c ∷ cs) =
    if c == 45
    then or_value_error negated (digits_from 0 false cs)
    else if c == 43
    then or_value_error pos (digits_from 0 false cs)
    else or_value_error pos (digits_from 0 false (c ∷ cs))

-- `bytes.decode('ascii')`
unfoldable pub ascii : List ℕ → Result (List ℕ)
ascii [] = ok []
ascii (c ∷ cs) = do require (ltb c 128) "UnicodeDecodeError"; rest ← ascii cs; ok (c ∷ rest)

-- `text.removesuffix('/')`
unfoldable pub without_slash : List ℕ → List ℕ
without_slash [] = []
without_slash (c ∷ cs) =
    let rest = without_slash cs in if c == 47 && is_nil cs then [] else c ∷ rest

-- `text.removeprefix('./')`
unfoldable pub without_dot : List ℕ → List ℕ
without_dot text = if take 2 text ≟ codes "./" then drop 2 text else text

-- The name and the size that a header of 60 bytes gives.
unfoldable pub read_member_header : List ℕ → Result (List ℕ × ℤ)
read_member_header header = do
  require (length header == 60 && drop 58 header ≟ 96 ∷ 10 ∷ []) "Invalid Debian archive header"
  name ← ascii (take 16 header)
  digits ← ascii (take 10 (drop 48 header))
  size ← int_of_text (strip digits)
  ok (without_slash (strip name), size)

abbrev pub Data : Type 0
Data = Option (ℕ × ℕ)

abbrev pub is_data : List ℕ → Bool
is_data name = contains name (codes "data.tar" ∷ codes "data.tar.gz" ∷ codes "data.tar.xz" ∷ [])

abbrev pub is_found : Data → Bool
is_found none = false
is_found (some d) = true

-- `data_member` after a member.
unfoldable pub note_data : List ℕ → ℕ → ℕ → Data → Result Data
note_data name offset size data' =
    if is_data name
    then (require (not (is_found data')) "Duplicate Debian data member" >> ok (some (offset, size)))
    else ok data'

-- The body of `while header := source.read(60)`; `continue_at` is the rest of the loop.
unfoldable pub next_member : (ℕ → Data → Result Data) → List ℕ → ℕ → Data → List ℕ → Result Data
next_member continue_at archive position found [] = ok found
next_member continue_at archive position found (b ∷ bs) = do
  member ← read_member_header (b ∷ bs)
  require (not (ltb_ℤ member.1 (pos 0) || ltb (length archive) (position + 60 + pos_part member.1)))
      "Debian member escapes archive"
  noted ← note_data member.0 (position + 60) (pos_part member.1) found
  continue_at (position + 60 + (pos_part member.1 + pos_part member.1 % 2)) noted

-- The loop from a position, in at most so many rounds.
unfoldable pub read_members : ℕ → List ℕ → ℕ → Data → Result Data
read_members zero archive position found = err "rounds"
read_members (suc rounds) archive position found =
    next_member (λ next noted. read_members rounds archive next noted) archive position found
      (take 60 (drop position archive))

abbrev pub or_unsupported : Data → Result (ℕ × ℕ)
or_unsupported none = err "No supported Debian data member; review the new package format"
or_unsupported (some found) = ok found

-- The data member; each round reads 60 bytes, so that the rounds suffice.
unfoldable pub data_member : List ℕ → Result (ℕ × ℕ)
data_member archive = do
  require (take 8 archive ≟ codes "!<arch>\n") "Expected a Debian ar archive"
  found ← read_members (suc (length archive)) archive 8 none
  or_unsupported found

abbrev pub Selection : Type 0
Selection = List (List ℕ × Pinned)

unfoldable pub pinned_of : List ℕ → Selection → Option Pinned
pinned_of name [] = none
pinned_of name (s ∷ ss) = let rest = pinned_of name ss in if name ≟ s.0 then some s.1 else rest

abbrev pub selected_names : Selection → List (List ℕ)
selected_names [] = []
selected_names (s ∷ ss) = s.0 ∷ selected_names ss

abbrev pub equals : ℤ → ℕ → Bool
equals n m = leb_ℤ n (pos m) && leb_ℤ (pos m) n

abbrev pub Written : Type 0
Written = List (List ℕ × List ℕ)

abbrev pub written_names : Written → List (List ℕ)
written_names [] = []
written_names (w ∷ ws) = w.0 ∷ written_names ws

module _ (digest : List ℕ → List ℕ) where
  -- `check_file` of a regular file with these contents.
  unfoldable pub check_contents : Pinned → List ℕ → Result (Unit {0})
  check_contents spec contents =
      require (length contents == spec.bytes && digest contents ≟ spec.sha256)
        "Pinned Binder reference bytes differ"

  module _ (selected : Selection) where
    -- `for member in bundle`, with the names written so far; each write goes to the last component of
    -- its name.
    unfoldable pub write_selected : List (List ℕ) → List Packed → Result Written
    write_selected found [] = do
      require (all_in found (selected_names selected) && all_in (selected_names selected) found)
          "Module/notice missing from pinned Debian package"
      ok []
    write_selected found (m ∷ ms) = elim (pinned_of (without_dot m.name) selected) [
      | none ↦ write_selected found ms
      | some spec ↦ do
        require
            (not (
              contains (without_dot m.name) found
              || not m.is_file
              || not (equals m.size spec.bytes)))
            "Duplicate or non-regular Binder module/notice member"
        check_contents spec m.content
        rest ← write_selected (without_dot m.name ∷ found) ms
        ok ((without_dot m.name, m.content) ∷ rest)
    ]

    unfoldable pub unpack_reference : (List ℕ → Result (List Packed)) → List ℕ → Result Written
    unpack_reference read_tar archive = do
      place ← data_member archive
      members ← read_tar (take place.1 (drop place.0 archive))
      write_selected [] members
