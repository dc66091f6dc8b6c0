-- ===== src/Elf.antt =====
-- The structures of the ELF64 format that tools/pack_elf.py and tools/wrap_dynamic.py read with
-- `struct`: the file header, a program header, a section header.
use artbox.Base.{
  ℕ, ◌+◌, leb, ◌==◌, ◌&&◌, ◌||◌, Bool, String, List, [], ◌∷◌, length, take, Result, ok, require,
  ◌>>◌,
}
use artbox.Base.Bytes.{le_at, byte_at}
use artbox.Base.Text.{◌≟◌}

-- `"<16sHHIQQQI6H"`
pub record Header : Type 0 where
  pub kind : ℕ
  pub machine : ℕ
  pub version : ℕ
  pub entry : ℕ
  pub phoff : ℕ
  pub shoff : ℕ
  pub flags : ℕ
  pub ehsize : ℕ
  pub phsize : ℕ
  pub phnum : ℕ
  pub shsize : ℕ
  pub shnum : ℕ
  pub names_index : ℕ

-- `"<II6Q"`
pub record Program : Type 0 where
  pub ptype : ℕ
  pub perms : ℕ
  pub offset : ℕ
  pub address : ℕ
  pub physical : ℕ
  pub size : ℕ
  pub memory : ℕ
  pub alignment : ℕ

-- `"<II4QII2Q"`
pub record Section : Type 0 where
  pub name : ℕ
  pub stype : ℕ
  pub sflags : ℕ
  pub address : ℕ
  pub offset : ℕ
  pub size : ℕ
  pub link : ℕ
  pub target : ℕ
  pub alignment : ℕ
  pub entry_size : ℕ

-- `require(0 <= offset <= len(data) - size, message)`
abbrev pub holds : String → ℕ → List ℕ → ℕ → Result (Unit {0})
holds message size bytes offset = require (leb (offset + size) (length bytes)) message

-- The fields at an offset where they fit.
abbrev pub header_at : List ℕ → Header
header_at bytes = record {
  kind = le_at 2 bytes 16;
  machine = le_at 2 bytes 18;
  version = le_at 4 bytes 20;
  entry = le_at 8 bytes 24;
  phoff = le_at 8 bytes 32;
  shoff = le_at 8 bytes 40;
  flags = le_at 4 bytes 48;
  ehsize = le_at 2 bytes 52;
  phsize = le_at 2 bytes 54;
  phnum = le_at 2 bytes 56;
  shsize = le_at 2 bytes 58;
  shnum = le_at 2 bytes 60;
  names_index = le_at 2 bytes 62;
}

abbrev pub program_at : List ℕ → ℕ → Program
program_at bytes i = record {
  ptype = le_at 4 bytes i;
  perms = le_at 4 bytes (i + 4);
  offset = le_at 8 bytes (i + 8);
  address = le_at 8 bytes (i + 16);
  physical = le_at 8 bytes (i + 24);
  size = le_at 8 bytes (i + 32);
  memory = le_at 8 bytes (i + 40);
  alignment = le_at 8 bytes (i + 48);
}

abbrev pub section_at : List ℕ → ℕ → Section
section_at bytes i = record {
  name = le_at 4 bytes i;
  stype = le_at 4 bytes (i + 4);
  sflags = le_at 8 bytes (i + 8);
  address = le_at 8 bytes (i + 16);
  offset = le_at 8 bytes (i + 24);
  size = le_at 8 bytes (i + 32);
  link = le_at 4 bytes (i + 40);
  target = le_at 4 bytes (i + 44);
  alignment = le_at 8 bytes (i + 48);
  entry_size = le_at 8 bytes (i + 56);
}

unfoldable pub read_header : String → List ℕ → Result Header
unfolding le_at
read_header message bytes = do holds message 64 bytes 0; ok (header_at bytes)

unfoldable pub read_program : String → List ℕ → ℕ → Result Program
unfolding le_at
read_program message bytes i = do holds message 56 bytes i; ok (program_at bytes i)

unfoldable pub read_section : String → List ℕ → ℕ → Result Section
unfolding le_at
read_section message bytes i = do holds message 64 bytes i; ok (section_at bytes i)

-- `ident[:7] == b"\x7fELF\x02\x01\x01" and ident[7] in (0, 3)`
unfoldable pub is_elf64 : List ℕ → Bool
unfolding ◌≟◌
is_elf64 bytes =
    take 7 bytes ≟ (0x7f ∷ 0x45 ∷ 0x4c ∷ 0x46 ∷ 2 ∷ 1 ∷ 1 ∷ [])
    && (byte_at bytes 7 == 0 || byte_at bytes 7 == 3)
