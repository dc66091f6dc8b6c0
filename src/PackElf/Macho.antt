-- ===== src/PackElf/Macho.antt =====
-- tools/pack_elf.py: `macho`, the dylib around a payload.
pub mod Image
pub mod Encoded
pub mod Commands
mod Tests
use artbox.Base.{
  ℕ, ◌+◌, ◌-◌, ltb, if◌then◌else◌, Bool, List, [], ◌∷◌, ◌++◌, length, replicate, overwrite, Result,
  ok, require, ◌>>=◌, ◌>>◌,
}
use artbox.Base.Bytes.{to_le, pack_all}
use artbox.Base.Text.{codes}
use artbox.PackElf.Numbers.{page, align}
use artbox.PackElf.Uleb.{uleb}

-- `"16s"`
abbrev pub name16 : List ℕ → List ℕ
name16 text = text ++ replicate (16 - length text) 0

abbrev pub symbol : List ℕ
symbol = codes "_artbox_guest_start" ++ 0 ∷ []

abbrev terminal : List ℕ
terminal = 0 ∷ uleb page

-- `export`
abbrev pub export_trie : List ℕ
export_trie =
    0 ∷ 1 ∷ symbol ++ uleb (3 + length symbol) ++ uleb (length terminal) ++ terminal ++ 0 ∷ []

abbrev pub install_name : List ℕ
install_name = codes "@rpath/ARTBoxConverted.framework/ARTBoxConverted" ++ 0 ∷ []

-- `text_size`, `symoff`, `stroff`
abbrev pub text_size_of : List ℕ → ℕ
text_size_of payload = align (page + length payload) page

abbrev pub symbols_at : ℕ → ℕ
symbols_at text_size = text_size + align (length export_trie) 8

-- `"<II16s4Q4I"`
abbrev pub segment_command : ℕ → List ℕ → ℕ → ℕ → ℕ → ℕ → ℕ → ℕ → Result (List ℕ)
segment_command size name address memory offset file_size permissions sections = do
  start ← pack_all 4 (0x19 ∷ size ∷ [])
  range ← pack_all 8 (address ∷ memory ∷ offset ∷ file_size ∷ [])
  rest ← pack_all 4 (permissions ∷ permissions ∷ sections ∷ 0 ∷ [])
  ok (start ++ name16 name ++ range ++ rest)

abbrev pub text_command : ℕ → ℕ → Result (List ℕ)
text_command text_size size = do
  segment ← segment_command 152 (codes "__TEXT") 0 text_size 0 text_size 5 1
  place ← pack_all 8 (page ∷ size ∷ [])
  rest ← pack_all 4 (page ∷ 14 ∷ 0 ∷ 0 ∷ 0x400 ∷ 0 ∷ 0 ∷ 0 ∷ [])
  ok (segment ++ name16 (codes "__artbox") ++ name16 (codes "__TEXT") ++ place ++ rest)

abbrev pub id_size : ℕ
id_size = align (24 + length install_name) 8

abbrev pub identity_command : Result (List ℕ)
identity_command = do
  start ← pack_all 4 (0xd ∷ id_size ∷ 24 ∷ 0 ∷ 0x10000 ∷ 0x10000 ∷ [])
  let identity = start ++ install_name
  ok (identity ++ replicate (id_size - length identity) 0)

-- `build`, by whether the platform is iOS, with the shifts of the version written out.
abbrev pub build_command : Bool → Result (List ℕ)
build_command ios =
    let target = if ios then 2 else 1 in
    let minimum = if ios then 983040 else 720896 in
    pack_all 4 (0x32 ∷ 24 ∷ target ∷ minimum ∷ minimum ∷ 0 ∷ [])

-- `commands`
unfoldable pub commands : ℕ → ℕ → Bool → Result (List ℕ)
commands text_size size ios = do
  text ← text_command text_size size
  linkedit ← segment_command 72 (codes "__LINKEDIT") text_size page text_size page 1 0
  identity ← identity_command
  build ← build_command ios
  dyld ←
      pack_all 4
        (0x80000022 ∷ 48 ∷ 0 ∷ 0 ∷ 0 ∷ 0 ∷ 0 ∷ 0 ∷ 0 ∷ 0 ∷ text_size ∷ length export_trie ∷ [])
  symtab ←
      pack_all 4
        (2 ∷ 24 ∷ symbols_at text_size ∷ 1 ∷ (symbols_at text_size + 16) ∷ (1 + length symbol) ∷ [])
  dysymtab ← pack_all 4 (0xb ∷ 80 ∷ 0 ∷ 0 ∷ 0 ∷ 1 ∷ 1 ∷ 0 ∷ replicate 12 0)
  ok (text ++ linkedit ++ identity ++ build ++ dyld ++ symtab ++ dysymtab)

-- `struct.pack("<IBBHQ", 1, 0xf, 1, 0, PAGE)`
abbrev pub symbol_entry : List ℕ
symbol_entry = to_le 4 1 ++ 0xf ∷ 1 ∷ to_le 2 0 ++ to_le 8 page

-- The assignments to slices of `result`; all of them lie in it.
unfoldable pub assembled : List ℕ → List ℕ → ℕ → List ℕ
assembled start payload text_size =
    overwrite
      (overwrite
        (overwrite (overwrite (overwrite (replicate (text_size + page) 0) 0 start) page payload)
          text_size export_trie)
        (symbols_at text_size) symbol_entry)
      (symbols_at text_size + 16) (0 ∷ symbol)

unfoldable pub macho : List ℕ → Bool → Result (List ℕ)
macho payload ios = do
  let text_size = text_size_of payload
  code ← commands text_size (length payload) ios
  header ← pack_all 4 (0xfeedfacf ∷ 0x100000c ∷ 0 ∷ 6 ∷ 7 ∷ length code ∷ 0x100085 ∷ 0 ∷ [])
  require (ltb (length header + length code) page) "insufficient signing/header space"
  ok (assembled (header ++ code) payload text_size)
