-- ===== src/PackElf/Parse.antt =====
-- tools/pack_elf.py: `parse_elf`, the contract of the input file.
pub mod Bounds
pub mod Named
use artbox.Base.{
  ℕ, zero, suc, ◌+◌, ◌-◌, ◌*◌, ◌/◌, ◌%◌, ◌^◌, bit_and, bit_or, ltb, leb, ◌==◌, ◌&&◌, ◌||◌, not,
  if◌then◌else◌, Bool, true, false, Option, none, some, String, List, [], ◌∷◌, ◌++◌, length, take,
  drop, Result, ok, err, require, ◌>>=◌, ◌>>◌,
}
use artbox.Base.Int.{ℤ, pos, leb_ℤ, ltb_ℤ, ◌+ℤ◌}
use artbox.Base.Bytes.{le_at, byte_at}
use artbox.Base.Text.{codes, ◌≟◌}
use artbox.Elf.{Header, Program, Section, holds, read_header, read_program, read_section, is_elf64}
use artbox.PackElf.Numbers.{page, limit, signed}
use artbox.PackElf.Sections.{
  truncated, dot_text, dot_rodata, dot_rela_text, Names, find_name, is_some, named, nth,
  read_sections, add_sections,
}
use artbox.PackElf.Relocations.{Layout, check_tables}

-- The checks of the header, the segment and the section table, in the order of the code.
unfoldable pub check_header : List ℕ → Header → Result (Unit {0})
unfolding is_elf64
check_header bytes h = do
  require (is_elf64 bytes) "expected little-endian ELF64"
  require (h.kind == 2 && h.machine == 183 && h.version == 1 && h.flags == 0 && h.ehsize == 64)
      "expected static AArch64 ET_EXEC"
  require (h.phsize == 56 && h.phnum == 1 && leb 64 h.phoff) "M1 requires one static image segment"

unfoldable pub check_segment : List ℕ → Header → Program → Result (Unit {0})
check_segment bytes h p = do
  require (p.ptype == 1 && p.perms == 5) "M1 requires one read/execute PT_LOAD"
  require
      (ltb 0 p.size
        && p.size == p.memory
        && leb p.memory (limit / 2)
        && leb (p.offset + p.size) (length bytes))
      "invalid segment bounds or BSS"
  require (p.address == h.entry && leb (p.address + p.size) (2 ^ 64) && p.physical == p.address)
      "unsupported entry or address layout"
  require (p.alignment == page && p.address % page == p.offset % page && p.offset % page == 0)
      "expected 16 KiB aligned image"

unfoldable pub check_section_table : Header → Result (Unit {0})
check_section_table h =
    require
      (h.shsize == 64
        && ltb 0 h.shnum
        && leb h.shnum 64
        && ltb 0 h.names_index
        && ltb h.names_index h.shnum
        && leb 64 h.shoff)
      "invalid section table"

-- The checks between the sections of the image.
unfoldable pub check_image : Header → Program → Section → Section → Names → Result (Unit {0})
unfolding find_name
check_image h p text rodata names = do
  require (text.sflags == 6 && rodata.sflags == 2) "expected allocated text and read-only constants"
  require
      (text.address == h.entry && text.offset == p.offset && text.size % 4 == 0 && ltb 0 text.size)
      "unsupported text/entry layout"
  require
      (leb (text.address + text.size) rodata.address
        && rodata.address + rodata.size == p.address + p.size)
      "unsupported constant layout"
  require (is_some (find_name dot_rela_text names)) "retain relocations with --emit-relocs"

-- From the dict of the sections on.
unfoldable pub parse_image : List ℕ → Header → Program → List Section → Names → Result (List ℕ × ℕ)
parse_image bytes h p sections by_name = do
  require (is_some (find_name dot_text by_name) && is_some (find_name dot_rodata by_name))
      "missing text or constants"
  (text_index, text) ← named dot_text by_name
  (_, rodata) ← named dot_rodata by_name
  check_image h p text rodata by_name
  let layout : Layout = record {
    entry = h.entry;
    base = p.address;
    size = p.size;
    offset = p.offset;
    text_size = text.size;
    shnum = h.shnum;
  }
  check_tables bytes layout text_index sections by_name
  ok (take p.size (drop p.offset bytes), text.size)

-- From the section table on.
unfoldable pub parse_sections : List ℕ → Header → Program → Result (List ℕ × ℕ)
parse_sections bytes h p = do
  check_section_table h
  sections ← read_sections bytes h.shnum h.shoff
  names ← nth sections h.names_index
  require (names.stype == 3 && leb (names.offset + names.size) (length bytes))
      "invalid section names"
  let strings = take names.size (drop names.offset bytes)
  by_name ← add_sections bytes p strings [] 0 sections
  parse_image bytes h p sections by_name

-- The bytes of the segment and the size of the text.
unfoldable pub parse_elf : List ℕ → Result (List ℕ × ℕ)
parse_elf bytes = do
  h ← read_header truncated bytes
  check_header bytes h
  p ← read_program truncated bytes h.phoff
  check_segment bytes h p
  parse_sections bytes h p
