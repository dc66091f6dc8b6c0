-- ===== src/Adapt/Scudo.antt =====
-- scripts/bionic_scudo.py: the configuration of the allocator with a smaller arena, and the check of
-- optional instructions. SHA-256 is a parameter, and what `\w` matches is a test on codes.
pub mod Sized
mod Tests
use artbox.Base.{
  ℕ, ◌+◌, ◌*◌, ◌^◌, ◌==◌, ◌&&◌, ◌||◌, not, if◌then◌else◌, Bool, true, false, Option, none, some,
  List, [], ◌∷◌, ◌++◌, Result, ok, err, require, ◌>>=◌, ◌>>◌,
}
use artbox.Base.Text.{codes, ◌≟◌}
use artbox.Paths.{is_nil, contains}
use artbox.Sources.Archive.{starts_with}
use artbox.Tree.{Tree, write_file}
use artbox.Adapt.Replace.{count, replace_first}

-- The words that `\bcrc32c?[bhwx]\b` matches.
abbrev pub crc_words : List (List ℕ)
crc_words =
    codes "crc32b"
    ∷ codes "crc32h"
    ∷ codes "crc32w"
    ∷ codes "crc32x"
    ∷ codes "crc32cb"
    ∷ codes "crc32ch"
    ∷ codes "crc32cw"
    ∷ codes "crc32cx"
    ∷ []

abbrev pub one_if : Bool → ℕ
one_if true = 1
one_if false = 0

-- `len(re.findall(...))`: the longest words of the text that are one of these; the first text is the
-- word so far.
unfoldable pub count_crc : (ℕ → Bool) → List ℕ → List ℕ → ℕ
count_crc is_word word [] = one_if (contains word crc_words)
count_crc is_word word (c ∷ cs) =
    let longer = count_crc is_word (word ++ (c ∷ [])) cs in
    let rest = count_crc is_word [] cs in
    if is_word c then longer else one_if (contains word crc_words) + rest

abbrev pub crc_unit : List ℕ
crc_unit = codes "scudo/standalone/crc32_hw.cpp"

-- `check_crc_code`
unfoldable pub check_crc_code : (ℕ → Bool) → List ℕ → List ℕ → Result ℕ
check_crc_code is_word source assembly = do
  let found = count_crc is_word [] assembly
  require (source ≟ crc_unit || found == 0) "Unconditional optional CRC instructions"
  require (not (source ≟ crc_unit) || found == 1) "The dedicated Scudo hardware CRC helper changed"
  ok found

abbrev pub keep_front : ℕ → Option (List ℕ × List ℕ) → Option (List ℕ × List ℕ)
keep_front c none = none
keep_front c (some parts) = some (c ∷ parts.0, parts.1)

-- The text before the first occurrence, and the text from there on: `text.index(part)`.
unfoldable pub split_before : List ℕ → List ℕ → Option (List ℕ × List ℕ)
split_before part [] = if is_nil part then some ([], []) else none
split_before part (c ∷ cs) =
    let later = keep_front c (split_before part cs) in
    if starts_with (c ∷ cs) part then some ([], c ∷ cs) else later

abbrev pub or_not_found : Option (List ℕ × List ℕ) → Result (List ℕ × List ℕ)
or_not_found none = err "ValueError"
or_not_found (some parts) = ok parts

abbrev pub large_region : List ℕ
large_region = codes "static const uptr RegionSizeLog = 28U;"

abbrev pub small_region : List ℕ
small_region = codes "static const uptr RegionSizeLog = 24U;"

-- The adapted configuration of a native build; the end is searched from the start on.
unfoldable pub smaller_region : List ℕ → Result (List ℕ)
smaller_region bytes = do
  begun ← or_not_found (split_before (codes "struct AndroidNormalConfig {") bytes)
  ended ← or_not_found (split_before (codes "struct AndroidLowMemoryConfig {") begun.1)
  require (count large_region ended.0 == 1) "Scudo Android normal primary configuration changed"
  ok (begun.0 ++ (replace_first large_region small_region ended.0 ++ ended.1))

-- What is returned, without the constant texts.
pub record Configured : Type 0 where
  pub source_sha256 : List ℕ
  pub configured_sha256 : List ℕ
  pub normal_primary_region_size_log : ℕ
  pub contiguous_reservation_bytes : ℕ

abbrev pub region_log : Bool → ℕ
region_log native = if native then 24 else 28

abbrev pub configured_record : (List ℕ → List ℕ) → List ℕ → Bool → List ℕ → Configured
configured_record digest expected native adapted = record {
  source_sha256 = expected;
  configured_sha256 = digest adapted;
  normal_primary_region_size_log = region_log native;
  contiguous_reservation_bytes = 33 * 2 ^ region_log native;
}

-- `prepare`, on the bytes of the original: the record, and the output directory afterwards.
unfoldable pub prepare_scudo :
    (List ℕ → List ℕ) → List ℕ → List ℕ → Bool → Tree → Result (Configured × Tree)
prepare_scudo digest bytes expected native output = do
  require (digest bytes ≟ expected) "Scudo Android configuration differs from the reviewed source"
  adapted ← if native then smaller_region bytes else ok bytes
  ok (
    configured_record digest expected native adapted,
    write_file (codes "original_custom_scudo_config.h") bytes
        (write_file (codes "custom_scudo_config.h") adapted output),
  )
