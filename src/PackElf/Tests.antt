-- ===== src/PackElf/Tests.antt =====
-- Runs of the definitions for tools/pack_elf.py on small inputs, and the theorems at those inputs.
use artbox.Base.{
  ◌<◌, ℕ, ◌+◌, ◌*◌, ◌/◌, ◌%◌, ◌≤◌, ◌<◌, ◌≡◌, refl, List, [], ◌∷◌, ◌++◌, length, some, ok, arith,
  overwrite,
}
use artbox.Base.Int.{scale, ◌+ℤ◌}
use artbox.Base.Bytes.{le_at, to_le, unpack, pack, pack_all, pack_into}
use artbox.Base.Text.{◌≟◌}
use artbox.Elf.{Section, read_header, read_program, read_section, is_elf64}
use artbox.PackElf.Numbers.{page, limit, align, signed}
use artbox.PackElf.Uleb.{uleb, unleb, unleb-uleb}
use artbox.PackElf.Branch.{branch, branch_target}
use artbox.PackElf.Inspect.{
  uses, classify, adr_immediate, adr_target, short_target, inspect_at, inspect_from, last_word,
  inspect_text,
}
use artbox.PackElf.Inspect.Contract.{IsAccepted, inspect_text-IsAccepted}
use artbox.PackElf.Veneer.{veneer, body_words}
use artbox.PackElf.Transform.{patch, transformed}
use artbox.PackElf.Transform.Laws.{IsTransformed, transformed-IsTransformed}
use artbox.PackElf.Sections.{
  find_name, read_sections, until_zero, section_name, check_allocated, add_section, add_sections,
}
use artbox.PackElf.Relocations.{Layout, check_entry, check_entries, check_table, check_tables}
use artbox.PackElf.Relocations.Resolved.{IsResolved, check_entries-IsResolved}
use artbox.PackElf.Parse.{
  check_header, check_segment, check_section_table, check_image, parse_image, parse_sections,
  parse_elf,
}
use artbox.PackElf.Parse.Bounds.{IsParsed, parse_elf-IsParsed, parse_elf-sizes}

-- MOVZ X0, #1; SVC #0; B back to the start; and four bytes of constants.
abbrev image : List ℕ
image = 32 ∷ 0 ∷ 128 ∷ 210 ∷ 1 ∷ 0 ∷ 0 ∷ 212 ∷ 254 ∷ 255 ∷ 255 ∷ 23 ∷ 42 ∷ 0 ∷ 0 ∷ 0 ∷ []

-- A file of six sections whose segment is the file itself.
abbrev file : List ℕ
file =
    127 ∷ 69 ∷ 76 ∷ 70 ∷ 2 ∷ 1 ∷ 1 ∷ 0 ∷ 0 ∷ 0 ∷ 0 ∷ 0 ∷ 0 ∷ 0 ∷ 0 ∷ 0 ∷ 2 ∷ 0 ∷ 183 ∷ 0 ∷ 1 ∷ 0 ∷ 0
    ∷ 0 ∷ 0 ∷ 0 ∷ 1 ∷ 0 ∷ 0 ∷ 0 ∷ 0 ∷ 0 ∷ 64 ∷ 0 ∷ 0 ∷ 0 ∷ 0 ∷ 0 ∷ 0 ∷ 0 ∷ 120 ∷ 0 ∷ 0 ∷ 0 ∷ 0 ∷ 0
    ∷ 0 ∷ 0 ∷ 0 ∷ 0 ∷ 0 ∷ 0 ∷ 64 ∷ 0 ∷ 56 ∷ 0 ∷ 1 ∷ 0 ∷ 64 ∷ 0 ∷ 6 ∷ 0 ∷ 5 ∷ 0 ∷ 1 ∷ 0 ∷ 0 ∷ 0 ∷ 5
    ∷ 0 ∷ 0 ∷ 0 ∷ 0 ∷ 0 ∷ 0 ∷ 0 ∷ 0 ∷ 0 ∷ 0 ∷ 0 ∷ 0 ∷ 0 ∷ 1 ∷ 0 ∷ 0 ∷ 0 ∷ 0 ∷ 0 ∷ 0 ∷ 0 ∷ 1 ∷ 0 ∷ 0
    ∷ 0 ∷ 0 ∷ 0 ∷ 36 ∷ 2 ∷ 0 ∷ 0 ∷ 0 ∷ 0 ∷ 0 ∷ 0 ∷ 36 ∷ 2 ∷ 0 ∷ 0 ∷ 0 ∷ 0 ∷ 0 ∷ 0 ∷ 0 ∷ 64 ∷ 0 ∷ 0
    ∷ 0 ∷ 0 ∷ 0 ∷ 0 ∷ 0 ∷ 0 ∷ 0 ∷ 0 ∷ 0 ∷ 0 ∷ 0 ∷ 0 ∷ 0 ∷ 0 ∷ 0 ∷ 0 ∷ 0 ∷ 0 ∷ 0 ∷ 0 ∷ 0 ∷ 0 ∷ 0 ∷ 0
    ∷ 0 ∷ 0 ∷ 0 ∷ 0 ∷ 0 ∷ 0 ∷ 0 ∷ 0 ∷ 0 ∷ 0 ∷ 0 ∷ 0 ∷ 0 ∷ 0 ∷ 0 ∷ 0 ∷ 0 ∷ 0 ∷ 0 ∷ 0 ∷ 0 ∷ 0 ∷ 0 ∷ 0
    ∷ 0 ∷ 0 ∷ 0 ∷ 0 ∷ 0 ∷ 0 ∷ 0 ∷ 0 ∷ 0 ∷ 0 ∷ 0 ∷ 0 ∷ 0 ∷ 0 ∷ 0 ∷ 0 ∷ 0 ∷ 0 ∷ 0 ∷ 0 ∷ 1 ∷ 0 ∷ 0 ∷ 0
    ∷ 1 ∷ 0 ∷ 0 ∷ 0 ∷ 6 ∷ 0 ∷ 0 ∷ 0 ∷ 0 ∷ 0 ∷ 0 ∷ 0 ∷ 0 ∷ 0 ∷ 1 ∷ 0 ∷ 0 ∷ 0 ∷ 0 ∷ 0 ∷ 0 ∷ 0 ∷ 0 ∷ 0
    ∷ 0 ∷ 0 ∷ 0 ∷ 0 ∷ 4 ∷ 0 ∷ 0 ∷ 0 ∷ 0 ∷ 0 ∷ 0 ∷ 0 ∷ 0 ∷ 0 ∷ 0 ∷ 0 ∷ 0 ∷ 0 ∷ 0 ∷ 0 ∷ 4 ∷ 0 ∷ 0 ∷ 0
    ∷ 0 ∷ 0 ∷ 0 ∷ 0 ∷ 0 ∷ 0 ∷ 0 ∷ 0 ∷ 0 ∷ 0 ∷ 0 ∷ 0 ∷ 7 ∷ 0 ∷ 0 ∷ 0 ∷ 1 ∷ 0 ∷ 0 ∷ 0 ∷ 2 ∷ 0 ∷ 0 ∷ 0
    ∷ 0 ∷ 0 ∷ 0 ∷ 0 ∷ 4 ∷ 0 ∷ 1 ∷ 0 ∷ 0 ∷ 0 ∷ 0 ∷ 0 ∷ 4 ∷ 0 ∷ 0 ∷ 0 ∷ 0 ∷ 0 ∷ 0 ∷ 0 ∷ 32 ∷ 2 ∷ 0 ∷ 0
    ∷ 0 ∷ 0 ∷ 0 ∷ 0 ∷ 0 ∷ 0 ∷ 0 ∷ 0 ∷ 0 ∷ 0 ∷ 0 ∷ 0 ∷ 1 ∷ 0 ∷ 0 ∷ 0 ∷ 0 ∷ 0 ∷ 0 ∷ 0 ∷ 0 ∷ 0 ∷ 0 ∷ 0
    ∷ 0 ∷ 0 ∷ 0 ∷ 0 ∷ 15 ∷ 0 ∷ 0 ∷ 0 ∷ 4 ∷ 0 ∷ 0 ∷ 0 ∷ 0 ∷ 0 ∷ 0 ∷ 0 ∷ 0 ∷ 0 ∷ 0 ∷ 0 ∷ 0 ∷ 0 ∷ 0 ∷ 0
    ∷ 0 ∷ 0 ∷ 0 ∷ 0 ∷ 0 ∷ 0 ∷ 0 ∷ 0 ∷ 0 ∷ 0 ∷ 0 ∷ 0 ∷ 0 ∷ 0 ∷ 0 ∷ 0 ∷ 0 ∷ 0 ∷ 0 ∷ 0 ∷ 4 ∷ 0 ∷ 0 ∷ 0
    ∷ 1 ∷ 0 ∷ 0 ∷ 0 ∷ 8 ∷ 0 ∷ 0 ∷ 0 ∷ 0 ∷ 0 ∷ 0 ∷ 0 ∷ 24 ∷ 0 ∷ 0 ∷ 0 ∷ 0 ∷ 0 ∷ 0 ∷ 0 ∷ 26 ∷ 0 ∷ 0
    ∷ 0 ∷ 2 ∷ 0 ∷ 0 ∷ 0 ∷ 0 ∷ 0 ∷ 0 ∷ 0 ∷ 0 ∷ 0 ∷ 0 ∷ 0 ∷ 0 ∷ 0 ∷ 0 ∷ 0 ∷ 0 ∷ 0 ∷ 0 ∷ 0 ∷ 0 ∷ 0 ∷ 0
    ∷ 0 ∷ 0 ∷ 0 ∷ 0 ∷ 0 ∷ 0 ∷ 0 ∷ 0 ∷ 0 ∷ 0 ∷ 0 ∷ 0 ∷ 0 ∷ 5 ∷ 0 ∷ 0 ∷ 0 ∷ 0 ∷ 0 ∷ 0 ∷ 0 ∷ 8 ∷ 0 ∷ 0
    ∷ 0 ∷ 0 ∷ 0 ∷ 0 ∷ 0 ∷ 24 ∷ 0 ∷ 0 ∷ 0 ∷ 0 ∷ 0 ∷ 0 ∷ 0 ∷ 34 ∷ 0 ∷ 0 ∷ 0 ∷ 3 ∷ 0 ∷ 0 ∷ 0 ∷ 0 ∷ 0
    ∷ 0 ∷ 0 ∷ 0 ∷ 0 ∷ 0 ∷ 0 ∷ 0 ∷ 0 ∷ 0 ∷ 0 ∷ 0 ∷ 0 ∷ 0 ∷ 0 ∷ 248 ∷ 1 ∷ 0 ∷ 0 ∷ 0 ∷ 0 ∷ 0 ∷ 0 ∷ 44
    ∷ 0 ∷ 0 ∷ 0 ∷ 0 ∷ 0 ∷ 0 ∷ 0 ∷ 0 ∷ 0 ∷ 0 ∷ 0 ∷ 0 ∷ 0 ∷ 0 ∷ 0 ∷ 1 ∷ 0 ∷ 0 ∷ 0 ∷ 0 ∷ 0 ∷ 0 ∷ 0 ∷ 0
    ∷ 0 ∷ 0 ∷ 0 ∷ 0 ∷ 0 ∷ 0 ∷ 0 ∷ 0 ∷ 46 ∷ 116 ∷ 101 ∷ 120 ∷ 116 ∷ 0 ∷ 46 ∷ 114 ∷ 111 ∷ 100 ∷ 97
    ∷ 116 ∷ 97 ∷ 0 ∷ 46 ∷ 114 ∷ 101 ∷ 108 ∷ 97 ∷ 46 ∷ 116 ∷ 101 ∷ 120 ∷ 116 ∷ 0 ∷ 46 ∷ 115 ∷ 121
    ∷ 109 ∷ 116 ∷ 97 ∷ 98 ∷ 0 ∷ 46 ∷ 115 ∷ 104 ∷ 115 ∷ 116 ∷ 114 ∷ 116 ∷ 97 ∷ 98 ∷ 0 ∷ []

-- One relocation entry, its symbol, and ADR X0, #8.
abbrev table : List ℕ
table =
    0 ∷ 0 ∷ 0 ∷ 0 ∷ 0 ∷ 0 ∷ 0 ∷ 0 ∷ 18 ∷ 1 ∷ 0 ∷ 0 ∷ 0 ∷ 0 ∷ 0 ∷ 0 ∷ 8 ∷ 0 ∷ 0 ∷ 0 ∷ 0 ∷ 0 ∷ 0 ∷ 0
    ∷ 0 ∷ 0 ∷ 0 ∷ 0 ∷ 0 ∷ 0 ∷ 1 ∷ 0 ∷ 0 ∷ 0 ∷ 0 ∷ 0 ∷ 0 ∷ 0 ∷ 0 ∷ 0 ∷ 0 ∷ 0 ∷ 0 ∷ 0 ∷ 0 ∷ 0 ∷ 0 ∷ 0
    ∷ 64 ∷ 0 ∷ 0 ∷ 16 ∷ []

align_pages : (align 16385 page ≡ 32768) × (align 8 4 ≡ 8)
unfolding align
align_pages = (refl, refl)

inspected : inspect_text image 12 ≡ ok (4 ∷ [])
unfolding inspect_text classify adr_target adr_immediate signed branch_target short_target scale
    ◌+ℤ◌ le_at inspect_from inspect_at unpack last_word
inspected = refl

abbrev payload : List ℕ
payload =
    32 ∷ 0 ∷ 128 ∷ 210 ∷ 3 ∷ 0 ∷ 0 ∷ 20 ∷ 254 ∷ 255 ∷ 255 ∷ 23 ∷ 42 ∷ 0 ∷ 0 ∷ 0 ∷ 225 ∷ 11 ∷ 182
    ∷ 169 ∷ 227 ∷ 19 ∷ 1 ∷ 169 ∷ 229 ∷ 27 ∷ 2 ∷ 169 ∷ 231 ∷ 35 ∷ 3 ∷ 169 ∷ 233 ∷ 43 ∷ 4 ∷ 169 ∷ 235
    ∷ 51 ∷ 5 ∷ 169 ∷ 237 ∷ 59 ∷ 6 ∷ 169 ∷ 239 ∷ 67 ∷ 7 ∷ 169 ∷ 241 ∷ 123 ∷ 8 ∷ 169 ∷ 9 ∷ 66 ∷ 59
    ∷ 213 ∷ 233 ∷ 75 ∷ 0 ∷ 249 ∷ 231 ∷ 3 ∷ 5 ∷ 170 ∷ 230 ∷ 3 ∷ 4 ∷ 170 ∷ 229 ∷ 3 ∷ 3 ∷ 170 ∷ 228 ∷ 3
    ∷ 2 ∷ 170 ∷ 227 ∷ 3 ∷ 1 ∷ 170 ∷ 226 ∷ 3 ∷ 0 ∷ 170 ∷ 225 ∷ 3 ∷ 8 ∷ 170 ∷ 224 ∷ 3 ∷ 27 ∷ 170 ∷ 128
    ∷ 3 ∷ 63 ∷ 214 ∷ 233 ∷ 75 ∷ 64 ∷ 249 ∷ 9 ∷ 66 ∷ 27 ∷ 213 ∷ 227 ∷ 19 ∷ 65 ∷ 169 ∷ 229 ∷ 27 ∷ 66
    ∷ 169 ∷ 231 ∷ 35 ∷ 67 ∷ 169 ∷ 233 ∷ 43 ∷ 68 ∷ 169 ∷ 235 ∷ 51 ∷ 69 ∷ 169 ∷ 237 ∷ 59 ∷ 70 ∷ 169
    ∷ 239 ∷ 67 ∷ 71 ∷ 169 ∷ 241 ∷ 123 ∷ 72 ∷ 169 ∷ 225 ∷ 11 ∷ 202 ∷ 168 ∷ 223 ∷ 255 ∷ 255 ∷ 23 ∷ []

veneered : transformed image 12 ≡ ok (payload, 4 ∷ [])
unfolding transformed patch veneer body_words pack_all pack to_le branch pack_into overwrite align
    inspect_text classify adr_target adr_immediate signed branch_target short_target scale ◌+ℤ◌
    le_at inspect_from inspect_at unpack last_word
veneered = refl

parsed : parse_elf file ≡ ok (file, 4)
unfolding parse_elf parse_sections parse_image read_header read_program check_header check_segment
    check_section_table read_sections add_sections check_image check_tables le_at is_elf64 ◌≟◌
    read_section section_name until_zero add_section check_allocated find_name check_table
    check_entries
parsed = refl

abbrev symbols : Section
symbols = record {
  name = 0;
  stype = 2;
  sflags = 0;
  address = 0;
  offset = 24;
  size = 24;
  link = 0;
  target = 0;
  alignment = 8;
  entry_size = 24;
}

abbrev layout : Layout
layout = record { entry = 0; base = 0; size = 16; offset = 48; text_size = 4; shnum = 2 }

resolved : check_entries table layout symbols 1 0 ≡ ok tt
unfolding check_entries check_entry le_at signed adr_immediate ◌+ℤ◌
resolved = refl

branch_back : branch 140 8 ≡ ok 0x17ffffdf
unfolding branch
branch_back = refl

unleb-uleb_example : unleb (uleb 16384 ++ 7 ∷ []) ≡ some (16384, 7 ∷ [])
unleb-uleb_example = unleb-uleb 16384 (7 ∷ [])

inspect_text-IsAccepted_example : IsAccepted image 12 (4 ∷ [])
inspect_text-IsAccepted_example = inspect_text-IsAccepted image 12 (4 ∷ []) inspected

known_load : classify 16 0 0xf9400000 ≡ ok (uses (0 ∷ 0 ∷ []))
unfolding classify
known_load = refl

transformed-IsTransformed_example : IsTransformed image 12 payload (4 ∷ [])
transformed-IsTransformed_example = transformed-IsTransformed image 12 veneered

check_entries-IsResolved_example : IsResolved table layout symbols (0 + 24 * 0)
check_entries-IsResolved_example =
    check_entries-IsResolved table layout symbols 1 0 resolved 0 (omega arith)

parse_elf-IsParsed_example : IsParsed file file 4
parse_elf-IsParsed_example = parse_elf-IsParsed file parsed

parse_elf-sizes_example :
    (4 ≤ length file) × (length file ≤ limit / 2) × (0 < 4) × (◌≡◌ {A = ℕ} (4 % 4) 0)
parse_elf-sizes_example = parse_elf-sizes file parsed
