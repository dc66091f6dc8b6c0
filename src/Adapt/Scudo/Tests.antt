-- ===== src/Adapt/Scudo/Tests.antt =====
-- scripts/bionic_scudo.py on a small configuration, and on assembly.
use artbox.Base.{ℕ, leb, ◌&&◌, ◌||◌, Bool, true, List, [], ◌∷◌, ◌++◌, ok, err, ◌≡◌, refl}
use artbox.Base.Text.{codes, ◌≟◌}
use artbox.Paths.{contains}
use artbox.Sources.Archive.{starts_with}
use artbox.Tree.{Tree, write_file}
use artbox.Adapt.Replace.{replace_first, count_from}
use artbox.Adapt.Scudo.{
  count_crc, check_crc_code, split_before, smaller_region, Configured, configured_record,
  prepare_scudo,
}
use artbox.Adapt.Scudo.Sized.{IsSized, prepare_scudo-IsSized}

abbrev short_digest : List ℕ → List ℕ
short_digest contents = codes "d"

abbrev large : List ℕ
large =
    codes "struct AndroidNormalConfig {static const uptr RegionSizeLog = 28U;};"
    ++ codes "struct AndroidLowMemoryConfig {static const uptr RegionSizeLog = 28U;};"

abbrev small : List ℕ
small =
    codes "struct AndroidNormalConfig {static const uptr RegionSizeLog = 24U;};"
    ++ codes "struct AndroidLowMemoryConfig {static const uptr RegionSizeLog = 28U;};"

abbrev placed_configs : Tree
placed_configs =
    (codes "custom_scudo_config.h", small) ∷ (codes "original_custom_scudo_config.h", large) ∷ []

abbrev sized : Configured × Tree
sized = (configured_record short_digest (codes "d") true small, placed_configs)

sized_test : prepare_scudo short_digest large (codes "d") true [] ≡ ok sized
unfolding prepare_scudo smaller_region split_before starts_with replace_first count_from write_file
    ◌≟◌
sized_test = refl

prepare_scudo-IsSized_example : IsSized short_digest large (codes "d") true sized
prepare_scudo-IsSized_example =
    prepare_scudo-IsSized short_digest large (codes "d") true [] sized sized_test

abbrev word_char : ℕ → Bool
word_char c = (leb 97 c && leb c 122) || (leb 48 c && leb c 57)

unconditional :
    check_crc_code word_char (codes "scudo/a.cpp") (codes "crc32cx w0, w1; crc32y")
    ≡ err "Unconditional optional CRC instructions"
unfolding check_crc_code count_crc contains ◌≟◌
unconditional = refl
