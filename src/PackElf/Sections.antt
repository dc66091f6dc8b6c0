-- ===== src/PackElf/Sections.antt =====
-- tools/pack_elf.py: the section table of `parse_elf` and its dict of sections by name.
use artbox.Base.{
  ℕ, zero, suc, ◌+◌, ◌-◌, bit_and, ltb, leb, ◌==◌, ◌&&◌, ◌||◌, not, if◌then◌else◌, Bool, true,
  false, Option, none, some, String, List, [], ◌∷◌, ◌++◌, length, drop, Result, ok, err, require,
  ◌>>=◌, ◌>>◌,
}
use artbox.Base.Text.{codes, ◌≟◌}
use artbox.Elf.{Program, Section, read_section}

abbrev pub truncated : String
truncated = "truncated ELF structure"

abbrev pub dot_text : List ℕ
dot_text = codes ".text"

abbrev pub dot_rodata : List ℕ
dot_rodata = codes ".rodata"

abbrev pub dot_rela_text : List ℕ
dot_rela_text = codes ".rela.text"

-- The dict `by_name`, in the order of insertion: a name, the section's number, the section.
abbrev pub Names : Type 0
Names = List (List ℕ × ℕ × Section)

unfoldable pub find_name : List ℕ → Names → Option (ℕ × Section)
unfolding ◌≟◌
find_name name [] = none
find_name name ((n, index, section) ∷ rest) =
    if n ≟ name then some (index, section) else find_name name rest

abbrev pub is_some : Option (ℕ × Section) → Bool
is_some none = false
is_some (some x) = true

abbrev pub named : List ℕ → Names → Result (ℕ × Section)
named name names = elim (find_name name names) [ none ↦ err "KeyError" | some x ↦ ok x ]

abbrev pub nth : List Section → ℕ → Result Section
nth [] i = err "list index out of range"
nth (s ∷ ss) zero = ok s
nth (s ∷ ss) (suc i) = nth ss i

-- `[read(..., shoff + index * 64) for index in range(shnum)]`
unfoldable pub read_sections : List ℕ → ℕ → ℕ → Result (List Section)
unfolding read_section
read_sections bytes zero at = ok []
read_sections bytes (suc n) at = do
  section ← read_section truncated bytes at
  rest ← read_sections bytes n (at + 64)
  ok (section ∷ rest)

-- `strings[nameoff:strings.find(b"\0", nameoff)]`
unfoldable pub until_zero : List ℕ → Option (List ℕ)
until_zero [] = none
until_zero (b ∷ bs) =
    let rest = until_zero bs in
    if b == 0 then some [] else elim rest [ none ↦ none | some name ↦ some (b ∷ name) ]

abbrev pub all_ascii : List ℕ → Bool
all_ascii [] = true
all_ascii (b ∷ bs) = ltb b 128 && all_ascii bs

unfoldable pub section_name : List ℕ → ℕ → Result (List ℕ)
unfolding until_zero
section_name strings nameoff = do
  require (ltb nameoff (length strings)) "invalid section name offset"
  name ← elim (until_zero (drop nameoff strings)) [
    | none ↦ err "unterminated section name"
    | some name ↦ ok name
  ]
  require (all_ascii name) "UnicodeDecodeError"
  ok name

-- The checks of a section that is part of the image.
unfoldable pub check_allocated : Program → List ℕ → Section → Result (Unit {0})
unfolding ◌≟◌
check_allocated p name s = do
  require ((name ≟ dot_text || name ≟ dot_rodata) && s.stype == 1) "unsupported allocated section"
  require (s.sflags == (if name ≟ dot_text then 6 else 2)) "unexpected allocated permissions"
  require
      (leb p.address s.address
        && leb (s.address + s.size) (p.address + p.size)
        && s.offset + p.address == s.address + p.offset)
      "allocated section does not preserve image addressing"

-- The body of the loop over the sections.
unfoldable pub add_section : List ℕ → Program → List ℕ → Names → ℕ → Section → Result Names
unfolding section_name find_name check_allocated
add_section bytes p strings names index s = do
  name ← section_name strings s.name
  require (not (is_some (find_name name names))) "duplicate section name"
  require (leb s.stype 4) "unsupported section type"
  require (leb (s.offset + s.size) (length bytes)) "section outside file"
  if bit_and s.sflags 2 == 0 then ok tt else check_allocated p name s
  require (s.alignment == 0 || bit_and s.alignment (s.alignment - 1) == 0)
      "invalid section alignment"
  ok (names ++ (name, index, s) ∷ [])

unfoldable pub add_sections : List ℕ → Program → List ℕ → Names → ℕ → List Section → Result Names
unfolding add_section
add_sections bytes p strings names index [] = ok names
add_sections bytes p strings names index (s ∷ ss) = do
  names' ← add_section bytes p strings names index s
  add_sections bytes p strings names' (index + 1) ss
