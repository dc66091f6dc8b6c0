-- ===== src/Reference/PackageTests.antt =====
-- scripts/binder_reference.py on a small Debian archive: the module and the notice of it are installed.
use artbox.Base.{
  ℕ, ◌-◌, true, false, none, some, List, [], ◌∷◌, ◌++◌, length, replicate, Result, ok, ◌≡◌, refl,
}
use artbox.Base.Int.{pos}
use artbox.Base.Text.{codes, ◌≟◌}
use artbox.Paths.{contains, has_char, parts, keep_parts, split_slash}
use artbox.Sources.Selection.{all_in}
use artbox.Tree.{Tree, file_at, write_file, write_all}
use artbox.Shell.{lstrip, rstrip}
use artbox.Reference.Archive.{
  Pinned, Packed, Selection, Written, data_member, read_members, next_member, read_member_header,
  note_data, int_of_text, digits_from, ascii, without_slash, without_dot, pinned_of, check_contents,
  write_selected, unpack_reference,
}
use artbox.Reference.Prepare.{
  Package, Depot, check_package, all_chars, placed_files, check_file, fetch_package,
  install_package, check_package_files, prepare_reference,
}
use artbox.Reference.Prepared.{IsPrepared, prepare_reference-IsPrepared}

abbrev digest : List ℕ → List ℕ
digest contents = contents

abbrev pin_of_text : List ℕ → Pinned
pin_of_text text = record { bytes = length text; sha256 = text }

abbrev filled_out : ℕ → List ℕ → List ℕ
filled_out width text = text ++ replicate (width - length text) 32

abbrev archive : List ℕ
archive =
    codes "!<arch>\n"
    ++ filled_out 16 (codes "data.tar.xz/")
    ++ filled_out 32 []
    ++ filled_out 10 (codes "5")
    ++ (96 ∷ 10 ∷ codes "tar..")

abbrev read_tar : List ℕ → Result (List Packed)
read_tar bytes = ok (
    record { name = codes "./lib/b.ko"; is_file = true; size = pos 3; content = codes "mod" }
    ∷ record { name = codes "etc/x"; is_file = true; size = pos 1; content = codes "x" }
    ∷ record { name = codes "doc/n"; is_file = true; size = pos 3; content = codes "not" }
    ∷ [])

abbrev selected : Selection
selected =
    (codes "lib/b.ko", pin_of_text (codes "mod")) ∷ (codes "doc/n", pin_of_text (codes "not")) ∷ []

abbrev written : Written
written = (codes "lib/b.ko", codes "mod") ∷ (codes "doc/n", codes "not") ∷ []

abbrev binder : Package
binder = record {
  name = codes "linux-modules";
  version = codes "6.1";
  url = codes "u";
  pinned = pin_of_text archive;
  module_path = codes "lib/b.ko";
  module_pin = pin_of_text (codes "mod");
  notice_path = codes "doc/n";
  notice_pin = pin_of_text (codes "not");
}

abbrev parse : List ℕ → Result Package
parse text = ok binder

abbrev render : Package → List ℕ
render spec = codes "{}"

abbrev url_path : List ℕ → List ℕ
url_path url = codes "pool/linux_6.1.deb"

abbrev empty : Depot
empty = record { archive = none; partial_alias = false; installed_alias = false; installed = none }

abbrev directory : Tree
directory =
    (codes "b.ko", codes "mod") ∷ (codes "n", codes "not") ∷ (codes "pin.json", codes "{}") ∷ []

abbrev filled : Depot
filled = record empty { archive = some archive; installed = some directory }

prepared :
    prepare_reference digest parse render read_tar url_path (ok archive) binder empty
    ≡ ok (directory, filled)
unfolding unpack_reference data_member read_members next_member read_member_header note_data
    int_of_text digits_from ascii without_slash without_dot pinned_of check_contents write_selected
    contains ◌≟◌ all_in lstrip rstrip prepare_reference check_package all_chars has_char parts
    keep_parts split_slash fetch_package check_file install_package placed_files write_all
    write_file check_package_files file_at
prepared = refl

prepare_reference-IsPrepared_example :
    IsPrepared digest parse render read_tar url_path binder empty filled directory
prepare_reference-IsPrepared_example =
    prepare_reference-IsPrepared digest parse render read_tar url_path (ok archive) binder empty
      filled directory prepared
