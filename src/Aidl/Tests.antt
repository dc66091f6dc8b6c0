-- ===== src/Aidl/Tests.antt =====
-- scripts/binder_aidl.py on concrete inputs: a file that is fetched, one that differs from its pin, and
-- one that is cached.
use artbox.Base.{
  ℕ, leb, ◌&&◌, Bool, true, false, none, List, [], ◌∷◌, ◌++◌, Result, ok, err, ◌≡◌, refl,
}
use artbox.Base.Text.{codes, ◌≟◌}
use artbox.Paths.{
  split_slash, parts, keep_parts, as_posix, join_slash, contains, has_char, join, dirname, parents,
  prefixes, strip_slashes, to_last_slash,
}
use artbox.Sources.Selection.{all_hex}
use artbox.Sources.Archive.{starts_with}
use artbox.Tree.{file_at, write_file}
use artbox.Tree.Disk.{exists, any_directory, any_file_below, any_is_file, make_directory}
use artbox.Aidl.{
  Input, Store, native_profile, fetch_file, check_request, is_repository, all_dotted, safe_relative,
  fetch_target, move_verified, remove_file, verify_contents, verify_file,
}
use artbox.Aidl.Fetched.{IsFetch, fetch_file-IsFetch}

abbrev digest : List ℕ → List ℕ
digest [] = codes "empty"
digest (c ∷ cs) = codes "sha"

abbrev blob_digest : List ℕ → List ℕ
blob_digest contents = codes "blob"

abbrev is_lower : ℕ → Bool
is_lower c = leb 97 c && leb c 122

abbrev inside : List ℕ → List ℕ → Bool
inside root target = true

abbrev download : List ℕ → List ℕ → List ℕ → List ℕ × Result (Unit {0})
download repository commit path = (codes "<m/>", ok tt)

abbrev manifest : Input
manifest = record {
  path = codes "manifest.xml";
  bytes = 4;
  sha256 = codes "sha";
  git_blob = codes "blob";
}

abbrev longer : Input
longer = record manifest { bytes = 5 }

abbrev commit : List ℕ
commit = codes "0123456789" ++ codes "0123456789" ++ codes "abcdefabcd" ++ codes "0123456789"

abbrev temporary : List ℕ
temporary = codes ".aidl-1"

abbrev store : Store
store = record {
  disk = record { files = (codes "aidl", codes "x") ∷ []; directories = []; modes = [] };
  links = [];
}

abbrev run : Input → Store → Store × Result (List ℕ)
run item s =
    fetch_file digest blob_digest is_lower inside download [] (codes "android/aidl") commit item
      temporary s

-- The file is fetched beside the other.
fetched_files :
    (run manifest store).0.disk.files
    ≡ (codes "aidl", codes "x") ∷ (codes "manifest.xml", codes "<m/>") ∷ []
unfolding fetch_file check_request is_repository split_slash all_dotted all_hex safe_relative parts
    keep_parts ◌≟◌ as_posix join_slash contains has_char fetch_target exists file_at join
    move_verified remove_file verify_contents verify_file dirname parents prefixes strip_slashes
    to_last_slash starts_with any_directory any_file_below any_is_file make_directory write_file
fetched_files = refl

-- A download of the wrong size is removed again.
rejected_files : (run longer store).0.disk.files ≡ store.disk.files
unfolding fetch_file check_request is_repository split_slash all_dotted all_hex safe_relative parts
    keep_parts ◌≟◌ as_posix join_slash contains has_char fetch_target exists file_at join
    move_verified remove_file verify_contents verify_file dirname parents prefixes strip_slashes
    to_last_slash starts_with any_directory any_file_below any_is_file make_directory write_file
rejected_files = refl

rejected : (run longer store).1 ≡ err "Pinned compiler input is missing or has the wrong size"
unfolding fetch_file check_request is_repository split_slash all_dotted all_hex safe_relative parts
    keep_parts ◌≟◌ as_posix join_slash contains has_char fetch_target exists file_at join
    move_verified remove_file verify_contents verify_file dirname parents prefixes strip_slashes
    to_last_slash starts_with any_directory any_file_below any_is_file make_directory write_file
rejected = refl

apple_host : native_profile none none (codes "Darwin") (codes "aarch64") ≡ ok (codes "darwin-arm64")
unfolding native_profile contains ◌≟◌
apple_host = refl

no_temporary : file_at temporary store.disk.files ≡ none
unfolding file_at ◌≟◌
no_temporary = refl

apart : (join [] manifest.path ≟ temporary) ≡ false
unfolding join ◌≟◌
apart = refl

fetch_file-IsFetch_example :
    IsFetch digest blob_digest is_lower inside download [] manifest store (run manifest store)
fetch_file-IsFetch_example =
    fetch_file-IsFetch digest blob_digest is_lower inside download [] (codes "android/aidl") commit
      manifest temporary store no_temporary apart
