-- ===== src/PackElf/Parse/Bounds.antt =====
-- tools/pack_elf.py: what `parse_elf` guarantees of the image that it returns.
use mathlib.Core.Path.{subst}
use artbox.Base.{
  String, ◌==◌, ℕ, ◌+◌, ◌*◌, ◌/◌, ◌%◌, ◌^◌, ◌≤◌, ◌<◌, ◌≡◌, sym, ap, ◌∙◌, List, [], length, take,
  drop, ok, arith, require-eq-ok, ok-injective, >>=-elim, require-elim, length-take, length-drop,
  leb, ◌&&◌,
}
use artbox.Base.Text.{codes}
use artbox.Paths.Laws.{Every}
use artbox.Elf.{
  Header, Program, Section, read_header, read_program, header_at, program_at, section_at,
}
use artbox.PackElf.Numbers.{page, limit}
use artbox.PackElf.Sections.{
  truncated, dot_text, dot_rodata, Names, named, nth, read_sections, add_sections, is_some,
  find_name,
}
use artbox.PackElf.Relocations.{check_tables}
use artbox.PackElf.Parse.Named.{IsNamed, nth-read_sections, add_sections-Every, named-IsNamed}
use artbox.PackElf.Parse.{
  check_header, check_segment, check_section_table, check_image, parse_elf, parse_sections,
  parse_image,
}

-- A section with its name and number, which the table of sections of a header has, and the table of
-- names that the header gives.
abbrev pub NamedOf : List ℕ → Header → List ℕ × ℕ × Section → Type 0
NamedOf bytes h e =
    let names = section_at bytes (h.shoff + h.names_index * 64) in
    IsNamed bytes (take names.size (drop names.offset bytes)) h.shoff h.shnum e

abbrev pub IsInTable : List ℕ → List ℕ → Section → Type 0
IsInTable bytes name s = (number : ℕ) × NamedOf bytes (header_at bytes) (name, number, s)

-- The segment, the text and the constants of an accepted file.
pub record IsParsed (bytes image : List ℕ) (text_size : ℕ) : Type 0 where
  pub segment : Program
  pub text : Section
  pub rodata : Section
  pub static_file : ((header_at bytes).kind ≡ 2) × ((header_at bytes).machine ≡ 183)
  pub one_segment : ((header_at bytes).phnum ≡ 1) × (segment.ptype ≡ 1)
  pub is_segment : segment ≡ program_at bytes (header_at bytes).phoff
  pub image_is : image ≡ take segment.size (drop segment.offset bytes)
  pub in_file : segment.offset + segment.size ≤ length bytes
  pub in_memory : segment.address + segment.size ≤ 2 ^ 64
  pub not_empty : 0 < segment.size
  pub no_bss : segment.memory ≡ segment.size
  pub within_limit : segment.size ≤ limit / 2
  pub executable : segment.perms ≡ 5
  pub at_entry : segment.address ≡ (header_at bytes).entry
  pub aligned : segment.address % page ≡ 0
  pub file_aligned : segment.offset % page ≡ 0
  pub text_named : IsInTable bytes (codes ".text") text
  pub rodata_named : IsInTable bytes (codes ".rodata") rodata
  pub text_first : text.address ≡ segment.address
  pub text_size_is : text.size ≡ text_size
  pub words : text_size % 4 ≡ 0
  pub some_text : 0 < text_size
  pub constants_behind : text.address + text.size ≤ rodata.address
  pub constants_last : rodata.address + rodata.size ≡ segment.address + segment.size

header_facts :
    (bytes : List ℕ) (h : Header)
    → check_header bytes h ≡ ok tt
    → (h.kind ≡ 2) × (h.machine ≡ 183) × (h.phnum ≡ 1)
unfolding check_header
header_facts bytes h e = ground arith

segment_facts :
    (bytes : List ℕ) (h : Header) (p : Program)
    → check_segment bytes h p ≡ ok tt
    → (p.ptype ≡ 1)
      × (p.perms ≡ 5)
      × (0 < p.size)
      × (p.memory ≡ p.size)
      × (p.size ≤ limit / 2)
      × (p.offset + p.size ≤ length bytes)
      × (p.address ≡ h.entry)
      × (p.address + p.size ≤ 2 ^ 64)
      × (p.address % page ≡ 0)
      × (p.offset % page ≡ 0)
unfolding check_segment
segment_facts bytes h p e = ground arith

image_facts :
    (h : Header) (p : Program) (text rodata : Section) (names : Names)
    → check_image h p text rodata names ≡ ok tt
    → (text.address ≡ h.entry)
      × (text.offset ≡ p.offset)
      × (text.size % 4 ≡ 0)
      × (0 < text.size)
      × (text.address + text.size ≤ rodata.address)
      × (rodata.address + rodata.size ≡ p.address + p.size)
unfolding check_image
image_facts h p text rodata names e = ground arith

read_header-eq-ok :
    (message : String) (bytes : List ℕ) {h : Header}
    → read_header message bytes ≡ ok h
    → h ≡ header_at bytes
unfolding read_header
read_header-eq-ok message bytes {h} e =
    sym (ok-injective (require-eq-ok (leb (0 + 64) (length bytes)) message _ e).1)

read_program-eq-ok :
    (message : String) (bytes : List ℕ) (i : ℕ) {p : Program}
    → read_program message bytes i ≡ ok p
    → p ≡ program_at bytes i
unfolding read_program
read_program-eq-ok message bytes i e =
    sym (ok-injective (require-eq-ok (leb (i + 56) (length bytes)) message _ e).1)

-- What the checks between the sections give, with the sections.
record HasSections (h : Header) (p : Program) (bytes image : List ℕ) (text_size : ℕ) : Type 0 where
  text : Section
  rodata : Section
  image_is : image ≡ take p.size (drop p.offset bytes)
  text_size_is : text.size ≡ text_size
  text_named : (number : ℕ) × NamedOf bytes h (dot_text, number, text)
  rodata_named : (number : ℕ) × NamedOf bytes h (dot_rodata, number, rodata)
  facts :
      (text.address ≡ h.entry)
      × (text.offset ≡ p.offset)
      × (text.size % 4 ≡ 0)
      × (0 < text.size)
      × (text.address + text.size ≤ rodata.address)
      × (rodata.address + rodata.size ≡ p.address + p.size)

parse_image-HasSections :
    (bytes : List ℕ) (h : Header) (p : Program) (sections : List Section) (by_name : Names)
    {image : List ℕ} {text_size : ℕ}
    → Every (NamedOf bytes h) by_name
    → parse_image bytes h p sections by_name ≡ ok (image, text_size)
    → HasSections h p bytes image text_size
unfolding parse_image
parse_image-HasSections bytes h p sections by_name all e =
    let table = section_at bytes (h.shoff + h.names_index * 64) in
    let strings : List ℕ = take table.size (drop table.offset bytes) in
    require-elim (is_some (find_name dot_text by_name) && is_some (find_name dot_rodata by_name)) _
      e
      λ _ e₁. >>=-elim (named dot_text by_name) e₁ λ text found e₂.
        >>=-elim (named dot_rodata by_name) e₂ λ rodata known e₃.
          >>=-elim (check_image h p text.1 rodata.1 by_name) e₃ λ _ checked e₄.
            >>=-elim (check_tables bytes _ text.0 sections by_name) e₄ λ _ _ e₅. record {
              text = text.1;
              rodata = rodata.1;
              image_is = sym (ap (λ (r : List ℕ × ℕ). r.0) (ok-injective e₅));
              text_size_is = ap (λ (r : List ℕ × ℕ). r.1) (ok-injective e₅);
              text_named = (
                text.0,
                named-IsNamed bytes p strings h.shoff h.shnum dot_text by_name text all found,
              );
              rodata_named = (
                rodata.0,
                named-IsNamed bytes p strings h.shoff h.shnum dot_rodata by_name rodata all known,
              );
              facts = image_facts h p text.1 rodata.1 by_name checked;
            }

parse_sections-HasSections :
    (bytes : List ℕ) (h : Header) (p : Program) {image : List ℕ} {text_size : ℕ}
    → parse_sections bytes h p ≡ ok (image, text_size)
    → HasSections h p bytes image text_size
unfolding parse_sections
parse_sections-HasSections bytes h p e = >>=-elim (check_section_table h) e λ _ _ e₁.
    >>=-elim (read_sections bytes h.shnum h.shoff) e₁ λ sections read e₂.
      >>=-elim (nth sections h.names_index) e₂ λ names found e₃.
        require-elim (names.stype == 3 && leb (names.offset + names.size) (length bytes)) _ e₃
          λ _ e₄.
            >>=-elim
              (add_sections bytes p (take names.size (drop names.offset bytes)) [] 0 sections) e₄
              λ by_name added e₅.
                let is =
                  nth-read_sections bytes h.shnum h.shoff h.names_index sections names read found in
                let strings : List ℕ = take names.size (drop names.offset bytes) in
                let first : h.shoff ≡ h.shoff + 0 * 64 = omega arith in
                parse_image-HasSections bytes h p sections by_name
                  (rw is at (
                    add_sections-Every bytes p strings h.shoff h.shnum h.shnum 0 sections [] by_name
                      (omega arith) (rw first at read) tt added))
                  e₅

-- A file that `parse_elf` accepts is an AArch64 executable with exactly one program header,
-- which is executable and loadable, lies in the file, the address space and half of the size
-- limit, is aligned to 16 KiB in both and has no BSS; the image is its bytes. The text and the
-- constants are sections of the file's section table whose names in its name table are .text
-- and .rodata; the text starts at the entry, is a positive number of words and ends before the
-- constants, which end the segment.
pub parse_elf-IsParsed :
    (bytes : List ℕ) {image : List ℕ} {text_size : ℕ}
    → parse_elf bytes ≡ ok (image, text_size)
    → IsParsed bytes image text_size
unfolding parse_elf
parse_elf-IsParsed bytes e = >>=-elim (read_header truncated bytes) e λ h read_h e₁.
    >>=-elim (check_header bytes h) e₁ λ _ header e₂.
      >>=-elim (read_program truncated bytes h.phoff) e₂ λ p read_p e₃.
        >>=-elim (check_segment bytes h p) e₃ λ _ checked e₄.
          let seg = segment_facts bytes h p checked in
          let rest = parse_sections-HasSections bytes h p e₄ in
          let eh = read_header-eq-ok truncated bytes read_h in
          let facts = header_facts bytes h header in
          record {
            segment = p;
            text = rest.text;
            rodata = rest.rodata;
            is_segment =
                read_program-eq-ok truncated bytes h.phoff read_p
                ∙ ap (λ (t : Header). program_at bytes t.phoff) eh;
            static_file = (
              ap (λ (t : Header). t.kind) (sym eh) ∙ facts.0,
              ap (λ (t : Header). t.machine) (sym eh) ∙ facts.1,
            );
            one_segment = (ap (λ (t : Header). t.phnum) (sym eh) ∙ facts.2, seg.0);
            image_is = rest.image_is;
            in_file = seg.5;
            in_memory = seg.7;
            not_empty = seg.2;
            no_bss = seg.3;
            within_limit = seg.4;
            executable = seg.1;
            at_entry = seg.6 ∙ ap (λ (t : Header). t.entry) eh;
            aligned = seg.8;
            file_aligned = seg.9;
            text_named =
                subst (λ t. (number : ℕ) × NamedOf bytes t (dot_text, number, rest.text)) eh
                  rest.text_named;
            rodata_named =
                subst (λ t. (number : ℕ) × NamedOf bytes t (dot_rodata, number, rest.rodata)) eh
                  rest.rodata_named;
            text_first = rest.facts.0 ∙ sym seg.6;
            text_size_is = rest.text_size_is;
            words = rw (← rest.text_size_is) rest.facts.2;
            some_text = rw (← rest.text_size_is) rest.facts.3;
            constants_behind = rest.facts.4;
            constants_last = rest.facts.5;
          }

-- So the text lies in the image, the image within half of the limit.
pub parse_elf-sizes :
    (bytes : List ℕ) {image : List ℕ} {text_size : ℕ}
    → parse_elf bytes ≡ ok (image, text_size)
    → (text_size ≤ length image)
      × (length image ≤ limit / 2)
      × (0 < text_size)
      × (text_size % 4 ≡ 0)
parse_elf-sizes bytes {image} {text_size} e =
    let r = parse_elf-IsParsed bytes e in
    let size : length image ≡ r.segment.size =
      ap length r.image_is
      ∙ length-take r.segment.size (drop r.segment.offset bytes)
      ∙ omega (arith, length-drop r.segment.offset bytes, r.in_file) in
    (
      omega (arith, size, r.text_first, r.constants_behind, r.constants_last, r.text_size_is),
      omega (arith, size, r.within_limit),
      r.some_text,
      r.words,
    )
