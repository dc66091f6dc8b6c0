-- ===== src/WrapDynamic/Tests.antt =====
-- tools/wrap_dynamic.py on concrete files: a shared ELF of two segments and a dylib of two guest
-- sections. The digest of the tests keeps the first eight bytes.
use artbox.Base.{ℕ, List, [], ◌∷◌, ◌++◌, length, take, replicate, ok, ◌≡◌, refl}
use artbox.Base.Bytes.{le_at, to_le}
use artbox.Base.Text.{codes, ◌≟◌}
use artbox.Elf.{Header, read_header, read_program, is_elf64}
use artbox.WrapDynamic.Segments.{truncated, Segment, check_program, file_program, read_tables}
use artbox.WrapDynamic.Layout.{
  check_header, two_loads, check_aligned, check_loads, check_tls, check_dynamic, find_segments,
  rx_image, rw_image, PackedLayout, pack_layout,
}
use artbox.WrapDynamic.Found.{load_headers, IsSortedPair}
use artbox.WrapDynamic.Wrapped.{IsWrapped, pack_layout-verify_macho}
use artbox.WrapDynamic.Macho.{
  read_segment, check_segment, check_command, check_commands, finish, verify_macho,
}
use artbox.WrapDynamic.Macho.Sections.{
  read_section, check_place, check_content, check_text, check_data, check_section, check_sections,
}

abbrev pub digest : List ℕ → List ℕ
digest bytes = take 8 bytes

-- One program header.
abbrev program : ℕ → ℕ → ℕ → ℕ → ℕ → ℕ → ℕ → List ℕ
program ptype perms offset address size memory alignment =
    to_le 4 ptype
    ++ to_le 4 perms
    ++ to_le 8 offset
    ++ to_le 8 address
    ++ to_le 8 address
    ++ to_le 8 size
    ++ to_le 8 memory
    ++ to_le 8 alignment

-- A load of 240 bytes, and one of 32 bytes at the next page that is its own dynamic table.
abbrev elf : List ℕ
elf =
    (0x7f ∷ 0x45 ∷ 0x4c ∷ 0x46 ∷ 2 ∷ 1 ∷ 1 ∷ [])
    ++ replicate 9 0
    ++ to_le 2 3
    ++ to_le 2 183
    ++ to_le 4 1
    ++ to_le 8 232
    ++ to_le 8 64
    ++ to_le 8 0
    ++ to_le 4 0
    ++ to_le 2 64
    ++ to_le 2 56
    ++ to_le 2 3
    ++ to_le 2 64
    ++ to_le 2 0
    ++ to_le 2 0
    ++ program 1 6 16384 16384 32 48 16384
    ++ program 1 5 0 0 240 240 16384
    ++ program 2 6 16384 16384 32 32 8
    ++ replicate 16152 7
    ++ replicate 32 9

abbrev code : Segment
code = record {
  index = 1;
  address = 0;
  offset = 0;
  file_size = 240;
  memory_size = 240;
  flags = 5;
  alignment = 16384;
}

abbrev writable : Segment
writable = record {
  index = 0;
  address = 16384;
  offset = 16384;
  file_size = 32;
  memory_size = 48;
  flags = 6;
  alignment = 16384;
}

abbrev table : Segment
table = record {
  index = 2;
  address = 16384;
  offset = 16384;
  file_size = 32;
  memory_size = 32;
  flags = 6;
  alignment = 8;
}

elf-segments : find_segments elf ≡ ok (code, writable, table)
unfolding find_segments read_header check_header is_elf64 read_tables read_program check_program
    file_program two_loads check_loads check_aligned check_tls check_dynamic to_le ◌≟◌
elf-segments = refl

abbrev layout_of : (List ℕ → List ℕ) → PackedLayout
layout_of digest = record {
  input_digest = digest elf;
  rx_bytes = length (rx_image elf code writable);
  rw_bytes = length (rw_image elf writable);
  rx_digest = digest (rx_image elf code writable);
  rw_digest = digest (rw_image elf writable);
  code = code;
  writable = writable;
}

abbrev packed : (List ℕ → List ℕ) → List ℕ × List ℕ × PackedLayout
packed digest = (rx_image elf code writable, rw_image elf writable, layout_of digest)

elf-packed : (digest : List ℕ → List ℕ) → pack_layout digest elf ≡ ok (packed digest)
unfolding pack_layout
elf-packed digest = rw elf-segments refl

-- A dylib whose guest sections both lie at the file's start, 256 bytes of code and 16 of data.
abbrev pub guest_layout : PackedLayout
guest_layout = record {
  input_digest = [];
  rx_bytes = 256;
  rw_bytes = 16;
  rx_digest = 0xcf ∷ 0xfa ∷ 0xed ∷ 0xfe ∷ 0xc ∷ 0 ∷ 0 ∷ 1 ∷ [];
  rw_digest = 0xcf ∷ 0xfa ∷ 0xed ∷ 0xfe ∷ 0xc ∷ 0 ∷ 0 ∷ 1 ∷ [];
  code = code;
  writable = writable;
}

abbrev pub guest_segment : List ℕ → ℕ → ℕ → ℕ → ℕ → List ℕ
guest_segment name address permissions offset size =
    to_le 4 0x19
    ++ to_le 4 152
    ++ name
    ++ to_le 8 address
    ++ to_le 8 size
    ++ to_le 8 offset
    ++ to_le 8 size
    ++ to_le 4 permissions
    ++ to_le 4 permissions
    ++ to_le 4 1
    ++ to_le 4 0
    ++ codes "__artbox"
    ++ replicate 8 0
    ++ name
    ++ to_le 8 address
    ++ to_le 8 size
    ++ to_le 4 offset
    ++ to_le 4 14
    ++ replicate 24 0

abbrev pub load_commands : ℕ → ℕ → ℕ → ℕ → List ℕ
load_commands rx_offset rx_size rw_offset rw_size =
    to_le 4 0xfeedfacf
    ++ to_le 4 0x100000c
    ++ to_le 4 0
    ++ to_le 4 6
    ++ to_le 4 3
    ++ to_le 4 312
    ++ replicate 8 0
    ++ guest_segment (codes "__TEXT" ++ replicate 10 0) 16384 5 rx_offset rx_size
    ++ to_le 4 2
    ++ to_le 4 8
    ++ guest_segment (codes "__DATA" ++ replicate 10 0) 32768 3 rw_offset rw_size

abbrev pub dylib : List ℕ
dylib = load_commands 0 256 0 16

pub dylib-placed : verify_macho digest guest_layout dylib ≡ ok (16384, 32768, digest dylib)
unfolding verify_macho check_commands check_command read_segment check_segment check_sections
    read_section check_section check_text check_data check_place check_content finish le_at to_le
    ◌≟◌
dylib-placed = refl

-- A dylib that holds the images of the ELF, and a digest that forgets nothing.
abbrev whole : List ℕ → List ℕ
whole bytes = bytes

abbrev linked : List ℕ
linked = load_commands 344 16384 16728 48 ++ rx_image elf code writable ++ rw_image elf writable

linked-placed : verify_macho whole (layout_of whole) linked ≡ ok (16384, 32768, linked)
unfolding verify_macho check_commands check_command read_segment check_segment check_sections
    read_section check_section check_text check_data check_place check_content finish le_at to_le
    ◌≟◌ rx_image rw_image
linked-placed = refl

pack_layout-verify_macho_example :
    (h : Header) × (code : Segment) × (writable : Segment) × (read_header truncated elf ≡ ok h)
    × IsSortedPair (load_headers elf h.phoff h.phnum 0) code writable
    × IsWrapped elf linked code writable 16384 32768
pack_layout-verify_macho_example =
    pack_layout-verify_macho whole elf linked (rx_image elf code writable) (rw_image elf writable)
      (layout_of whole) (16384, 32768, linked) (elf-packed whole) linked-placed
      (λ others same. same) (λ others same. same)
