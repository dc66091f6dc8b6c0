-- ===== src/WrapDynamic/Layout.antt =====
-- tools/wrap_dynamic.py: `pack_layout`, from the segments to the two images. The digest is SHA-256
-- in the code; here it is any function on bytes.
use artbox.Base.{
  ℕ, ◌+◌, ◌-◌, ◌*◌, ◌%◌, bit_and, ltb, leb, ◌==◌, ◌&&◌, ◌||◌, if◌then◌else◌, List, [], ◌∷◌, ◌++◌,
  length, take, drop, replicate, Result, ok, err, require, ◌>>=◌, ◌>>◌,
}
use artbox.Elf.{Header, read_header, is_elf64}
use artbox.WrapDynamic.Segments.{page, limit, truncated, Segment, no_tables, read_tables}

unfoldable pub check_header : List ℕ → Header → Result (Unit {0})
check_header bytes h = do
  require (is_elf64 bytes) "Expected little-endian ELF64"
  require
      (h.kind == 3
        && h.machine == 183
        && h.version == 1
        && h.flags == 0
        && h.ehsize == 64
        && h.phsize == 56)
      "Expected AArch64 ET_DYN"
  require (leb 64 h.phoff && leb 2 h.phnum && leb h.phnum 16) "Invalid program header table"

-- `sorted(loads, key=lambda segment: segment["address"])` of two; the sort is stable.
abbrev pub sorted_pair : Segment → Segment → Segment × Segment
sorted_pair a b = if ltb b.address a.address then (b, a) else (a, b)

-- `len(loads) == 2 and len(dynamic) == 1`, the loads sorted, and `table = dynamic[0]`.
unfoldable pub two_loads : List Segment → List Segment → Result (Segment × Segment × Segment)
two_loads (a ∷ b ∷ []) (d ∷ []) = let (code, writable) = sorted_pair a b in ok (code, writable, d)
two_loads loads dynamic = err "Wrapper requires exactly RX/RW loads and a dynamic table"

unfoldable pub check_aligned : List Segment → Result (Unit {0})
check_aligned [] = ok tt
check_aligned (s ∷ ss) = do
  require (s.alignment == page && s.address % page == s.offset % page && s.offset % page == 0)
      "Wrapper requires 16 KiB aligned ELF segments"
  check_aligned ss

unfoldable pub check_loads : Header → List Segment → Segment → Segment → Result (Unit {0})
check_loads h loads code writable = do
  require (code.flags == 5 && writable.flags == 6) "Expected distinct RX and RW segments"
  require (code.address == code.offset && code.offset == 0 && code.file_size == code.memory_size)
      "Read-only image must begin at ELF zero and have no executable BSS"
  require (leb (h.phoff + h.phnum * 56) code.file_size && ltb h.entry code.file_size)
      "ELF header or entry escapes RX image"
  check_aligned loads
  require
      (leb code.memory_size writable.address
        && ltb 0 writable.memory_size
        && leb writable.memory_size limit
        && leb (writable.address + writable.memory_size) limit)
      "Overlapping or excessive ELF virtual image"
  require (leb code.file_size writable.offset) "Overlapping ELF file segments"

-- The TLS template relative to the writable segment; below its start the code's number is negative
-- and refused.
unfoldable pub check_tls : Segment → List Segment → Result (Unit {0})
check_tls writable [] = ok tt
check_tls writable (t ∷ ts) = do
  let relative = t.address - writable.address
  require
      (bit_and t.flags 1 == 0
        && leb writable.address t.address
        && leb relative writable.memory_size
        && ltb 0 t.memory_size
        && leb (t.memory_size + relative) writable.memory_size
        && leb t.alignment (1024 * 1024))
      "TLS template escapes writable load"
  require
      (t.file_size == 0
        || leb relative writable.file_size
          && leb (t.file_size + relative) writable.file_size
          && t.offset == writable.offset + relative)
      "TLS initializer is not mapped data"
  check_tls writable ts

unfoldable pub check_dynamic : Segment → Segment → Result (Unit {0})
check_dynamic writable table =
    let relative = table.address - writable.address in
    require
      (table.flags == 6
        && leb writable.address table.address
        && leb (relative + table.file_size) writable.file_size
        && leb 16 table.file_size
        && table.file_size == table.memory_size
        && table.file_size % 16 == 0
        && table.offset == writable.offset + relative)
      "Dynamic table must be file-backed writable data"

-- The segments that pass every check.
unfoldable pub find_segments : List ℕ → Result (Segment × Segment × Segment)
find_segments bytes = do
  require (leb (length bytes) limit) "ELF exceeds the controlled wrapper size limit"
  h ← read_header truncated bytes
  check_header bytes h
  t ← read_tables bytes h.phoff h.phnum 0 no_tables
  (code, writable, table) ← two_loads t.loads t.dynamic
  check_loads h t.loads code writable
  require (leb (length t.tls) 1) "Duplicate TLS template"
  check_tls writable t.tls
  check_dynamic writable table
  ok (code, writable, table)

unfoldable pub rx_image : List ℕ → Segment → Segment → List ℕ
rx_image bytes code writable =
    take code.file_size bytes ++ replicate (writable.address - code.file_size) 0

unfoldable pub rw_image : List ℕ → Segment → List ℕ
rw_image bytes writable =
    take writable.file_size (drop writable.offset bytes)
    ++ replicate (writable.memory_size - writable.file_size) 0

-- The dict `layout`, without its constant text.
pub record PackedLayout : Type 0 where
  pub input_digest : List ℕ
  pub rx_bytes : ℕ
  pub rw_bytes : ℕ
  pub rx_digest : List ℕ
  pub rw_digest : List ℕ
  pub code : Segment
  pub writable : Segment

module _ (digest : List ℕ → List ℕ) where
  unfoldable pub pack_layout : List ℕ → Result (List ℕ × List ℕ × PackedLayout)
  pack_layout bytes = do
    (code, writable, _) ← find_segments bytes
    let rx = rx_image bytes code writable
    let rw = rw_image bytes writable
    let layout : PackedLayout = record {
      input_digest = digest bytes;
      rx_bytes = length rx;
      rw_bytes = length rw;
      rx_digest = digest rx;
      rw_digest = digest rw;
      code = code;
      writable = writable;
    }
    ok (rx, rw, layout)
