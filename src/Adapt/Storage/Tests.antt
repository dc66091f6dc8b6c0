-- ===== src/Adapt/Storage/Tests.antt =====
-- scripts/art_storage_adapt.py and art_managed_adapt.py on a header of three lines and one more file.
use artbox.Base.{ℕ, Bool, true, List, [], ◌∷◌, ◌++◌, ok, ◌≡◌, refl}
use artbox.Base.Text.{codes, ◌≟◌}
use artbox.Base.Utf8.{decode, decode_from, encode, encode_char}
use artbox.Paths.{as_posix, join_slash, parts, keep_parts, split_slash, has_char, contains}
use artbox.Sources.Archive.{starts_with}
use artbox.Tree.{Tree, file_at, write_file, write_all, paths_of}
use artbox.Adapt.Replace.{replace_unique, replace_first, count_from}
use artbox.Adapt.Bionic.{Edit, is_relative_to}
use artbox.Adapt.Host.{
  Item, HostRecord, load_selection, selected_bytes, edit_files, edit_text, all_contained, placed,
  host_sources,
}
use artbox.Adapt.Host.Output.{IsOutput}
use artbox.Adapt.Storage.{
  reference_path, reference_sha256, adapt_storage, extend_files, managed_boundary, reference_edit,
}
use artbox.Adapt.Storage.Stored.{IsReference, adapt_storage-IsStored}

abbrev same_digest : List ℕ → List ℕ
same_digest contents = reference_sha256

abbrev as_spelled : List ℕ → List ℕ
as_spelled name = name

abbrev everywhere : List ℕ → Bool
everywhere path = true

abbrev header : List ℕ
header =
    codes "#include \"base/atomic.h\"\n"
    ++ (codes "uint32_t as_bits = reinterpret_cast32<uint32_t>(mirror_ptr);\n"
        ++ codes "return reinterpret_cast32<MirrorType*>(as_bits);")

abbrev adapted_header : List ℕ
adapted_header =
    codes "// ARTBox: heap-base-relative references for the signed native contract.\n"
    ++ (codes "#include \"artbox_art_reference_bridge.h\"\n\n#include \"base/atomic.h\"\n"
        ++ (codes "uint32_t as_bits = artbox_art_reference_compress(mirror_ptr);\n"
            ++ codes "return static_cast<MirrorType*>(artbox_art_reference_decompress(as_bits));"))

abbrev upstream : Tree
upstream = (reference_path, header) ∷ (codes "runtime/a.cc", codes "old;") ∷ []

abbrev chosen : List Item
chosen =
    record { path = reference_path; sha256 = reference_sha256 }
    ∷ record { path = codes "runtime/a.cc"; sha256 = reference_sha256 }
    ∷ []

abbrev more : List Edit
more =
    record {
      path = codes "runtime/a.cc";
      sha256 = reference_sha256;
      replacements = (codes "old", codes "new") ∷ [];
    }
    ∷ []

abbrev stored_records : List HostRecord
stored_records =
    record {
      path = reference_path;
      upstream_sha256 = reference_sha256;
      adapted_sha256 = reference_sha256;
    }
    ∷ record {
      path = codes "runtime/a.cc";
      upstream_sha256 = reference_sha256;
      adapted_sha256 = reference_sha256;
    }
    ∷ []

abbrev stored : Tree
stored = (reference_path, adapted_header) ∷ (codes "runtime/a.cc", codes "new;") ∷ []

stored_test :
    adapt_storage as_spelled same_digest everywhere everywhere
      (codes "src" ∷ [])
      (codes "out" ∷ [])
      upstream
      []
      chosen
      more
    ≡ ok (stored_records, stored)
unfolding adapt_storage host_sources load_selection selected_bytes edit_files edit_text
    all_contained placed paths_of replace_unique replace_first count_from starts_with decode
    decode_from encode encode_char write_all write_file file_at is_relative_to as_posix join_slash
    parts keep_parts split_slash has_char contains ◌≟◌
stored_test = refl

adapt_storage-IsStored_example :
    (out : IsOutput same_digest upstream chosen (reference_edit ∷ more) stored_records stored)
    × IsReference same_digest out.loaded stored
unfolding as_posix join_slash parts keep_parts split_slash ◌≟◌
adapt_storage-IsStored_example =
    adapt_storage-IsStored as_spelled same_digest everywhere everywhere (codes "src" ∷ [])
      (codes "out" ∷ []) upstream [] chosen more (stored_records, stored) (refl, (refl, tt))
      stored_test

boundary_test :
    managed_boundary (λ name. ok more) ≡ ok (reference_edit ∷ more ++ (more ++ (more ++ more)))
unfolding managed_boundary extend_files
boundary_test = refl
