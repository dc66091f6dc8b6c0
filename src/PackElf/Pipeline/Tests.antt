-- ===== src/PackElf/Pipeline/Tests.antt =====
-- tools/pack_elf.py: a whole file of three instructions and four bytes of constants.
use artbox.Base.{ℕ, List, [], ◌∷◌, ◌++◌, true, length, replicate, ok, ◌≡◌, refl, arith}
use artbox.Base.Int.{scale, ◌+ℤ◌}
use artbox.Base.Bytes.{le_at, to_le, unpack}
use artbox.Base.Text.{codes, ◌≟◌}
use artbox.Elf.{read_header, read_program, read_section, is_elf64}
use artbox.PackElf.Numbers.{signed}
use artbox.PackElf.Branch.{branch_target}
use artbox.PackElf.Inspect.{
  classify, adr_immediate, adr_target, short_target, inspect_at, inspect_from, last_word,
  inspect_text,
}
use artbox.PackElf.Sections.{
  find_name, read_sections, until_zero, section_name, check_allocated, add_section, add_sections,
}
use artbox.PackElf.Relocations.{check_entries, check_table, check_tables}
use artbox.PackElf.Parse.{
  check_header, check_segment, check_section_table, check_image, parse_image, parse_sections,
  parse_elf,
}
use artbox.PackElf.Pipeline.{convert, IsConverted, convert_total}

abbrev section : ℕ → ℕ → ℕ → ℕ → ℕ → ℕ → ℕ → ℕ → ℕ → List ℕ
section name stype flags address offset size link target entry_size =
    to_le 4 name
    ++ to_le 4 stype
    ++ to_le 8 flags
    ++ to_le 8 address
    ++ to_le 8 offset
    ++ to_le 8 size
    ++ to_le 4 link
    ++ to_le 4 target
    ++ to_le 8 4
    ++ to_le 8 entry_size

abbrev word : List ℕ → List ℕ
word text = text ++ 0 ∷ []

-- MOVZ X0, #1; SVC #0; B back to the start; and four bytes of constants.
abbrev image : List ℕ
image = 32 ∷ 0 ∷ 128 ∷ 210 ∷ 1 ∷ 0 ∷ 0 ∷ 212 ∷ 254 ∷ 255 ∷ 255 ∷ 23 ∷ 42 ∷ 0 ∷ 0 ∷ 0 ∷ []

-- The file: a header, one program header, six section headers, the names, and the image at a page.
abbrev file : List ℕ
file =
    (0x7f ∷ 0x45 ∷ 0x4c ∷ 0x46 ∷ 2 ∷ 1 ∷ 1 ∷ [])
    ++ replicate 9 0
    ++ to_le 2 2
    ++ to_le 2 183
    ++ to_le 4 1
    ++ to_le 8 65536
    ++ to_le 8 64
    ++ to_le 8 120
    ++ to_le 4 0
    ++ to_le 2 64
    ++ to_le 2 56
    ++ to_le 2 1
    ++ to_le 2 64
    ++ to_le 2 6
    ++ to_le 2 5
    ++ to_le 4 1
    ++ to_le 4 5
    ++ to_le 8 16384
    ++ to_le 8 65536
    ++ to_le 8 65536
    ++ to_le 8 16
    ++ to_le 8 16
    ++ to_le 8 16384
    ++ replicate 64 0
    ++ section 1 1 6 65536 16384 12 0 0 0
    ++ section 7 1 2 65548 16396 4 0 0 0
    ++ section 15 4 0 0 0 0 4 1 24
    ++ section 26 2 0 0 0 0 5 0 24
    ++ section 34 3 0 0 504 44 0 0 0
    ++ 0 ∷ word (codes ".text")
    ++ word (codes ".rodata")
    ++ word (codes ".rela.text")
    ++ word (codes ".symtab")
    ++ word (codes ".shstrtab")
    ++ replicate 15836 0
    ++ image

parsed : parse_elf file ≡ ok (image, 12)
unfolding to_le parse_elf parse_sections parse_image read_header read_program check_header
    check_segment check_section_table read_sections add_sections check_image check_tables le_at
    is_elf64 ◌≟◌ read_section section_name until_zero add_section check_allocated find_name
    check_table check_entries
parsed = refl

inspected : inspect_text image 12 ≡ ok (4 ∷ [])
unfolding inspect_text classify adr_target adr_immediate signed branch_target short_target scale
    ◌+ℤ◌ le_at inspect_from inspect_at unpack last_word
inspected = refl

file_size : length file ≡ 16400
unfolding to_le
file_size = refl

convert_total_example :
    (payload : List ℕ) × (converted : List ℕ) × (convert file true
      ≡ ok (payload, 4 ∷ [], converted))
    × IsConverted image 12 (4 ∷ []) payload converted
convert_total_example =
    convert_total file true image 12 (4 ∷ []) (omega (arith, file_size)) parsed inspected
