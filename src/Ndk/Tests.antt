-- ===== src/Ndk/Tests.antt =====
-- scripts/ndk.py on a small archive, and on a cache with an installation.
use artbox.Base.{
  ℕ, if◌then◌else◌, Bool, true, Option, none, some, List, [], ◌∷◌, Result, ok, err, ◌≡◌, refl,
}
use artbox.Base.Text.{codes, ◌≟◌}
use artbox.Base.Utf8.{decode, decode_from}
use artbox.Paths.{
  contains, has_char, parts, split_slash, keep_parts, as_posix, join_slash, dirname, join, parents,
  prefixes, strip_slashes, to_last_slash,
}
use artbox.Sources.Archive.{starts_with}
use artbox.Tree.{file_at, write_file, paths_of}
use artbox.Tree.Disk.{
  any_directory, any_file_below, any_is_file, exists, make_directory, write_new, set_mode,
}
use artbox.Ndk.{
  NdkMember, Alias, Toolchain, zip_link, zip_file, zip_directory, extract_as, extract_zipped,
  extract_zipped_all, make_link, make_links, extract_ndk,
}
use artbox.Ndk.Links.{IsDirect, passes}
use artbox.Ndk.Extracted.{IsKit, extract_ndk-IsKit}
use artbox.Ndk.Obtain.{NdkCache}

abbrev always : List ℕ → Bool
always path = true

-- A directory, a symbolic link of mode 0o120777 and an executable of mode 0o100755.
abbrev members : List NdkMember
members =
    record { filename = codes "android-ndk-r28c/"; external_attr = 0; contents = [] }
    ∷ record {
      filename = codes "android-ndk-r28c/cc";
      external_attr = 2717843456;
      contents = codes "clang";
    }
    ∷ record {
      filename = codes "android-ndk-r28c/clang";
      external_attr = 2179792896;
      contents = codes "elf";
    }
    ∷ []

-- Where the path leads if no link is above it; what is behind a link is not looked up.
abbrev made_at : List Alias → List ℕ → Result (List ℕ)
made_at before path = if passes before path then err "FileNotFoundError" else ok path

direct : IsDirect made_at
direct before path clear = rw clear refl

abbrev kit : Toolchain
kit = record {
  disk = record {
    files = (codes "android-ndk-r28c/clang", codes "elf") ∷ [];
    directories = codes "android-ndk-r28c" ∷ codes "android-ndk-r28c" ∷ [];
    modes = (codes "android-ndk-r28c/clang", 493) ∷ [];
  };
  links = (codes "android-ndk-r28c/cc", codes "clang") ∷ [];
}

extracted : extract_ndk made_at true always members ≡ ok kit
unfolding extract_ndk extract_zipped_all extract_zipped extract_as zip_directory zip_link zip_file
    make_links make_link contains has_char parts split_slash keep_parts ◌≟◌ as_posix join_slash
    dirname join parents prefixes strip_slashes to_last_slash starts_with file_at write_file
    paths_of any_directory any_file_below any_is_file exists make_directory write_new set_mode
    decode decode_from
extracted = refl

extract_ndk-IsKit_example : IsKit made_at always members kit
extract_ndk-IsKit_example = extract_ndk-IsKit made_at direct true always members kit extracted

abbrev present : Toolchain
present = record kit {
  disk = record kit.disk {
    files = (codes "android-ndk-r28c/source.properties", codes "Pkg.Revision = 28.2.13676358") ∷ [];
  };
}

abbrev cache : NdkCache
cache = record { installed = some present; archive = none; sha256_note = none }

abbrev hash : List ℕ → List ℕ
hash bytes = bytes

abbrev download : List ℕ → Result (List (List ℕ))
download host = err "offline"

abbrev read : List ℕ → Result (List NdkMember)
read bytes = err "BadZipFile"

abbrev properties : List ℕ → Option (List ℕ)
properties path = none
