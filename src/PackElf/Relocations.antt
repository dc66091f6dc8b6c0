-- ===== src/PackElf/Relocations.antt =====
-- tools/pack_elf.py: the relocation table of `parse_elf`.
pub mod Resolved
use artbox.Base.{
  ℕ, zero, suc, ◌+◌, ◌-◌, ◌*◌, ◌/◌, ◌%◌, ◌^◌, bit_and, bit_or, ltb, leb, ◌==◌, ◌&&◌, ◌||◌, not,
  if◌then◌else◌, Bool, true, false, Option, none, some, String, List, [], ◌∷◌, ◌++◌, length, take,
  drop, Result, ok, err, require, ◌>>=◌, ◌>>◌,
}
use artbox.Base.Int.{ℤ, pos, leb_ℤ, ltb_ℤ, ◌+ℤ◌}
use artbox.Base.Bytes.{le_at, byte_at}
use artbox.Base.Text.{codes, ◌≟◌}
use artbox.Elf.{Header, Program, Section, holds, read_header, read_program, read_section, is_elf64}
use artbox.PackElf.Numbers.{page, limit, signed}
use artbox.PackElf.Inspect.{adr_immediate}
use artbox.PackElf.Sections.{truncated, dot_rela_text, Names, nth}

-- The addresses that the checks of a relocation compare with.
pub record Layout : Type 0 where
  pub entry : ℕ
  pub base : ℕ
  pub size : ℕ
  pub offset : ℕ
  pub text_size : ℕ
  pub shnum : ℕ

abbrev pub same_int : ℤ → ℤ → Bool
same_int a b = leb_ℤ a b && leb_ℤ b a

-- The body of the loop over the entries of a table, at one position.
unfoldable pub check_entry : List ℕ → Layout → Section → ℕ → Result (Unit {0})
unfolding le_at
check_entry bytes l symbols position = do
  holds truncated 24 bytes position
  let address = le_at 8 bytes position
  let info = le_at 8 bytes (position + 8)
  let addend = signed (le_at 8 bytes (position + 16)) 64
  require (bit_and info 0xffffffff == 274 && ltb (info / 2 ^ 32) (symbols.size / 24))
      "only resolved R_AARCH64_ADR_PREL_LO21 is supported"
  require (leb l.entry address && leb (address + 4) (l.entry + l.text_size) && address % 4 == 0)
      "invalid relocation target"
  let symbol = symbols.offset + info / 2 ^ 32 * 24
  holds truncated 24 bytes symbol
  let index = le_at 2 bytes (symbol + 6)
  require (ltb 0 index && ltb index l.shnum) "undefined relocation symbol"
  let target = pos (le_at 8 bytes (symbol + 8)) +ℤ addend
  require (leb_ℤ (pos l.base) target && ltb_ℤ target (pos (l.base + l.size)))
      "relocation escapes the image"
  holds truncated 4 bytes (l.offset + address - l.base)
  let word = le_at 4 bytes (l.offset + address - l.base)
  require
      (bit_and word 0x9f000000 == 0x10000000
        && same_int (pos address +ℤ signed (adr_immediate word) 21) target)
      "unresolved or mismatched ADR relocation"

-- `for pos in range(section[4], section[4] + section[5], 24)`, with the rounds that are left.
unfoldable pub check_entries : List ℕ → Layout → Section → ℕ → ℕ → Result (Unit {0})
unfolding check_entry
check_entries bytes l symbols zero position = ok tt
check_entries bytes l symbols (suc rounds) position = do
  check_entry bytes l symbols position
  check_entries bytes l symbols rounds (position + 24)

unfoldable pub check_table :
    List ℕ → Layout → ℕ → List Section → List ℕ → Section → Result (Unit {0})
unfolding ◌≟◌ check_entries
check_table bytes l text_index sections name s = do
  require (name ≟ dot_rela_text && s.target == text_index && s.entry_size == 24 && s.size % 24 == 0)
      "unsupported relocation table"
  require (ltb s.link l.shnum) "invalid relocation symbol table"
  symbols ← nth sections s.link
  require (symbols.stype == 2 && symbols.entry_size == 24 && symbols.size % 24 == 0)
      "invalid symbol table"
  check_entries bytes l symbols ((s.size + 23) / 24) s.offset

-- `for name, (_, section) in by_name.items()`
unfoldable pub check_tables : List ℕ → Layout → ℕ → List Section → Names → Result (Unit {0})
unfolding check_table
check_tables bytes l text_index sections [] = ok tt
check_tables bytes l text_index sections ((name, _, s) ∷ rest) = do
  if s.stype == 4 then check_table bytes l text_index sections name s else ok tt
  check_tables bytes l text_index sections rest
