-- ===== src/WrapDynamic/Segments.antt =====
-- tools/wrap_dynamic.py: `pack_layout`, the program headers.
use artbox.Base.{
  ℕ, zero, suc, ◌+◌, ◌-◌, ◌*◌, ◌^◌, bit_and, leb, ◌==◌, ◌&&◌, ◌||◌, if◌then◌else◌, Bool, String,
  List, [], ◌∷◌, ◌++◌, length, Result, ok, require, ◌>>=◌, ◌>>◌,
}
use artbox.Elf.{Program, read_program}

abbrev pub page : ℕ
page = 16384

abbrev pub limit : ℕ
limit = 64 * 1024 * 1024

abbrev pub truncated : String
truncated = "Truncated binary structure"

pub record Segment : Type 0 where
  pub index : ℕ
  pub address : ℕ
  pub offset : ℕ
  pub file_size : ℕ
  pub memory_size : ℕ
  pub flags : ℕ
  pub alignment : ℕ

-- `loads, dynamic, tls`
pub record Tables : Type 0 where
  pub loads : List Segment
  pub dynamic : List Segment
  pub tls : List Segment

abbrev pub no_tables : Tables
no_tables = record { loads = []; dynamic = []; tls = [] }

abbrev pub is_allowed : ℕ → Bool
is_allowed ptype =
    ptype == 1
    || ptype == 2
    || ptype == 4
    || ptype == 6
    || ptype == 7
    || ptype == 0x6474e550
    || ptype == 0x6474e551
    || ptype == 0x6474e552

-- The checks of one program header; `perms & ~7` is what is left of `perms` without its low bits.
unfoldable pub check_program : List ℕ → Program → Result (Unit {0})
check_program bytes p = do
  require (is_allowed p.ptype && p.perms - bit_and p.perms 7 == 0) "Unsupported program header"
  require
      (leb p.offset (length bytes) && leb (p.offset + p.size) (length bytes) && leb p.size p.memory)
      "Program header exceeds file or memory bounds"
  require (leb (p.address + p.memory) (2 ^ 64)) "Virtual address overflow"
  require (p.alignment == 0 || p.alignment == 1 || bit_and p.alignment (p.alignment - 1) == 0)
      "Invalid segment alignment"

abbrev pub segment_of : ℕ → Program → Segment
segment_of index p = record {
  index = index;
  address = p.address;
  offset = p.offset;
  file_size = p.size;
  memory_size = p.memory;
  flags = p.perms;
  alignment = p.alignment;
}

-- Where a segment goes by its type.
unfoldable pub file_program : Tables → ℕ → Program → Result Tables
file_program t index p =
    if p.ptype == 1
    then ok (record t { loads = t.loads ++ segment_of index p ∷ [] })
    else if p.ptype == 2
    then ok (record t { dynamic = t.dynamic ++ segment_of index p ∷ [] })
    else if p.ptype == 7
    then ok (record t { tls = t.tls ++ segment_of index p ∷ [] })
    else if p.ptype == 0x6474e551
    then (require (bit_and p.perms 1 == 0) "Executable guest stack is unsupported" >> ok t)
    else ok t

-- `for index in range(phnum)`, with the rounds that are left.
unfoldable pub read_tables : List ℕ → ℕ → ℕ → ℕ → Tables → Result Tables
read_tables bytes phoff zero index t = ok t
read_tables bytes phoff (suc rounds) index t = do
  p ← read_program truncated bytes (phoff + index * 56)
  check_program bytes p
  t' ← file_program t index p
  read_tables bytes phoff rounds (index + 1) t'
