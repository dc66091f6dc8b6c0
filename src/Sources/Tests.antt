-- ===== src/Sources/Tests.antt =====
-- scripts/sources.py on a small archive: a file, an alias of it in a directory, and an excluded
-- file.
use artbox.Base.{
  ℕ, ◌+◌, ◌&&◌, if◌then◌else◌, List, [], ◌∷◌, ok, err, ltb, length, ◌==◌, replicate, Option, none,
  some, ◌≡◌, refl,
}
use artbox.Base.Int.{pos, ◌+ℤ◌}
use artbox.Base.Text.{codes, ◌≟◌}
use artbox.Paths.{
  contains, has_char, split_slash, keep_parts, parts, join_slash, as_posix, prefixes, parents,
  to_last_slash, strip_slashes, dirname, join, normal_parts, reverse_onto, normpath,
}
use artbox.Sources.Archive.{
  Kind, Member, starts_with, add_entry, add_below, add_member, add_members,
}
use artbox.Sources.Aliases.{
  lookup, check_parent, check_parents, follow, resolve, copies_of, plan_copies,
}
use artbox.Sources.Selection.{
  Pin, Spec, Selected, all_hex, all_name, is_name, keys_of, pin_of, any_selected, check_nested,
  check_pin, select_pins, check_notice, select_files, all_in, write_pinned, stream_below,
  stream_member, stream_members, unpack_selected, check_bytes, verify,
}
use artbox.Sources.Streamed.{IsUnpacked, unpack_selected-IsUnpacked}
use artbox.Sources.Verified.{IsInstalled, verify-IsInstalled}
use artbox.Sources.Extraction.{IsExtraction, plan_copies-IsExtraction}

-- Case folding of ASCII letters.
abbrev lower : List ℕ → List ℕ
lower [] = []
lower (c ∷ cs) = (if ltb 64 c && ltb c 91 then c + 32 else c) ∷ lower cs

abbrev root : Member
root = record { name = codes "r"; kind = Kind.directory; size = pos 0; linkname = []; mode = 493 }

abbrev plain : Member
plain = record {
  name = codes "r/A.txt";
  kind = Kind.regular;
  size = pos 7;
  linkname = [];
  mode = 420;
}

abbrev alias : Member
alias = record {
  name = codes "r/d/./b";
  kind = Kind.symlink;
  size = pos 0;
  linkname = codes ".././A.txt";
  mode = 511;
}

abbrev skipped : Member
skipped = record {
  name = codes "r/out/c";
  kind = Kind.regular;
  size = pos 5;
  linkname = [];
  mode = 420;
}

abbrev exclude : List (List ℕ)
exclude = codes "out" ∷ []

abbrev archive : List Member
archive = root ∷ plain ∷ alias ∷ skipped ∷ []

abbrev copies : List (List ℕ × Member)
copies = (codes "A.txt", plain) ∷ (codes "d/b", plain) ∷ []

archive-copies : plan_copies lower exclude archive ≡ ok copies
unfolding plan_copies copies_of resolve follow check_parents check_parent lookup add_members
    add_member add_below add_entry starts_with ◌+ℤ◌ normpath reverse_onto normal_parts join dirname
    strip_slashes to_last_slash parents prefixes as_posix join_slash parts keep_parts split_slash
    has_char contains ◌≟◌
archive-copies = refl

-- The same file name in another case is refused.
archive-twice :
    plan_copies lower exclude (root ∷ plain ∷ record plain { name = codes "r/a.TXT" } ∷ [])
    ≡ err "Duplicate source archive path"
unfolding plan_copies add_members add_member add_below add_entry starts_with ◌+ℤ◌ as_posix
    join_slash parts keep_parts split_slash has_char contains ◌≟◌
archive-twice = refl

-- Two links that lead to each other are refused.
archive-cycle :
    plan_copies lower exclude (
      root
      ∷ record alias { name = codes "r/x"; linkname = codes "y" }
      ∷ record alias { name = codes "r/y"; linkname = codes "x" }
      ∷ [])
    ≡ err "Source alias cycle"
unfolding plan_copies copies_of resolve follow check_parents check_parent lookup add_members
    add_member add_below add_entry starts_with ◌+ℤ◌ normpath reverse_onto normal_parts join dirname
    strip_slashes to_last_slash parents prefixes as_posix join_slash parts keep_parts split_slash
    has_char contains ◌≟◌
archive-cycle = refl

plan_copies-IsExtraction_example : IsExtraction lower exclude archive copies
plan_copies-IsExtraction_example =
    plan_copies-IsExtraction lower exclude archive copies archive-copies

abbrev pin_a : Pin
pin_a = record { path = codes "A.txt"; bytes = pos 7; sha256 = replicate 64 97; git_blob = none }

abbrev pin_notice : Pin
pin_notice = record {
  path = codes "d/NOTICE";
  bytes = pos 2;
  sha256 = replicate 64 48;
  git_blob = some (replicate 40 49);
}

abbrev spec : Spec
spec = record {
  commit = replicate 40 102;
  files = pin_a ∷ pin_notice ∷ [];
  notice = codes "d/NOTICE";
  notice_sha256 = replicate 64 48;
}

abbrev selected : Selected
selected = (codes "a.txt", pin_a) ∷ (codes "d/notice", pin_notice) ∷ []

spec-selected : select_files lower (codes "art-1") spec ≡ ok selected
unfolding select_files is_name all_name all_hex select_pins check_pin keys_of check_nested
    any_selected check_notice pin_of parents prefixes as_posix join_slash parts keep_parts
    split_slash has_char contains ◌≟◌
spec-selected = refl

abbrev notice : Member
notice = record {
  name = codes "r/d/NOTICE";
  kind = Kind.regular;
  size = pos 2;
  linkname = [];
  mode = 420;
}

abbrev written : List (List ℕ × Member)
written = (codes "d/NOTICE", notice) ∷ (codes "A.txt", plain) ∷ []

selected-written :
    unpack_selected lower selected (root ∷ notice ∷ skipped ∷ plain ∷ []) ≡ ok written
unfolding unpack_selected stream_members stream_member stream_below write_pinned all_in keys_of
    pin_of as_posix join_slash parts keep_parts split_slash has_char contains ◌≟◌
selected-written = refl

-- A selection that the archive does not hold in full is refused.
selected-missing :
    unpack_selected lower selected (root ∷ notice ∷ [])
    ≡ err "Source archive is missing selected files"
unfolding unpack_selected stream_members stream_member stream_below write_pinned all_in keys_of
    pin_of as_posix join_slash parts keep_parts split_slash has_char contains ◌≟◌
selected-missing = refl

unpack_selected-IsUnpacked_example :
    IsUnpacked lower selected (root ∷ notice ∷ skipped ∷ plain ∷ []) written
unpack_selected-IsUnpacked_example =
    unpack_selected-IsUnpacked lower selected (root ∷ notice ∷ skipped ∷ plain ∷ []) written
      selected-written

-- Files of seven and of two bytes, with a digest and a blob hash that fit the pins.
abbrev content : List ℕ → Option (List ℕ)
content path =
    if path ≟ codes "A.txt"
    then some (replicate 7 1)
    else if path ≟ codes "d/NOTICE"
    then some (replicate 2 3)
    else none

abbrev sha256 : List ℕ → List ℕ
sha256 bytes = if length bytes == 7 then replicate 64 97 else replicate 64 48

abbrev sha1 : List ℕ → List ℕ
sha1 bytes = replicate 40 49

selected-verified : verify sha256 sha1 content selected ≡ ok tt
unfolding verify check_bytes ◌≟◌
selected-verified = refl

verify-IsInstalled_example : IsInstalled sha256 sha1 content lower spec selected
verify-IsInstalled_example =
    verify-IsInstalled sha256 sha1 content lower (codes "art-1") spec selected spec-selected
      selected-verified
