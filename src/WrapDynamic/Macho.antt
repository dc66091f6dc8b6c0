-- ===== src/WrapDynamic/Macho.antt =====
-- tools/wrap_dynamic.py: `verify_macho`, the check of the linked dylib against the layout.
pub mod Sections
use artbox.Base.{
  ℕ, zero, suc, ◌+◌, ◌-◌, ◌*◌, ◌/◌, ◌%◌, ◌^◌, bit_and, ltb, leb, ◌==◌, ◌&&◌, ◌||◌, not,
  if◌then◌else◌, Bool, true, false, Option, none, some, String, List, [], ◌∷◌, ◌++◌, length, take,
  drop, Result, ok, err, require, ◌>>=◌, ◌>>◌,
}
use artbox.Base.Bytes.{le_at}
use artbox.Base.Text.{◌≟◌}
use artbox.Elf.{holds}
use artbox.WrapDynamic.Segments.{page, truncated}
use artbox.WrapDynamic.Layout.{PackedLayout}
use artbox.WrapDynamic.Macho.Sections.{MachoSegment, Guests, no_guests, c_string, check_sections}

-- `"<II16s4Q4I"` at a load command, with the name cut at its first zero byte.
abbrev pub segment_at : List ℕ → ℕ → MachoSegment
segment_at bytes i = record {
  name = c_string (take 16 (drop (i + 8) bytes));
  address = le_at 8 bytes (i + 24);
  memory = le_at 8 bytes (i + 32);
  offset = le_at 8 bytes (i + 40);
  file_size = le_at 8 bytes (i + 48);
  maximum = le_at 4 bytes (i + 56);
  initial = le_at 4 bytes (i + 60);
  sections = le_at 4 bytes (i + 64);
}

unfoldable pub read_segment : List ℕ → ℕ → Result MachoSegment
unfolding le_at
read_segment bytes i = do holds truncated 72 bytes i; ok (segment_at bytes i)

unfoldable pub check_segment : List ℕ → ℕ → MachoSegment → Result (Unit {0})
check_segment bytes size s = do
  require
      (size == 72 + s.sections * 80
        && leb (s.address + s.memory) (2 ^ 64)
        && leb (s.offset + s.file_size) (length bytes)
        && leb s.file_size s.memory)
      "Invalid Mach-O segment bounds"
  require
      (not (bit_and s.initial 6 == 6)
        && not (bit_and s.maximum 6 == 6)
        && s.initial - bit_and s.initial s.maximum == 0)
      "Invalid or writable/executable Mach-O segment"

module _ (digest : List ℕ → List ℕ) (layout : PackedLayout) where
  -- One load command of a size, and what it adds to the dict `found`.
  unfoldable pub check_command : List ℕ → ℕ → ℕ → ℕ → Guests → Result Guests
  check_command bytes position cmd size found =
      if cmd == 0x19
      then (do
        s ← read_segment bytes position
        check_segment bytes size s
        check_sections digest layout bytes s s.sections (position + 72) found)
      else ok found

  -- `for _ in range(count)`, to the position behind the commands.
  unfoldable pub check_commands : List ℕ → ℕ → ℕ → ℕ → Guests → Result (ℕ × Guests)
  unfolding le_at
  check_commands bytes end zero position found = ok (position, found)
  check_commands bytes end (suc rounds) position found = do
    holds truncated 8 bytes position
    let size = le_at 4 bytes (position + 4)
    require (leb 8 size && size % 8 == 0 && leb (position + size) end) "Invalid Mach-O load command"
    found' ← check_command bytes position (le_at 4 bytes position) size found
    check_commands bytes end rounds (position + size) found'

  -- The addresses of the dict that is returned: `load_bias`, which is also `rx_address`, and `rw_address`.
  unfoldable pub finish : ℕ → ℕ → Guests → Result (ℕ × ℕ)
  finish position end found = elim found.text_at [
    | none ↦ err "Incomplete guest wrapper load commands"
    | some bias ↦ elim found.data_at [
      | none ↦ err "Incomplete guest wrapper load commands"
      | some rw ↦ do
        require (position == end) "Incomplete guest wrapper load commands"
        require (rw == bias + layout.writable.address)
            "Apple linker did not preserve the ELF load bias"
        ok (bias, rw)
    ]
  ]

  unfoldable pub verify_macho : List ℕ → Result (ℕ × ℕ × List ℕ)
  unfolding le_at
  verify_macho bytes = do
    holds truncated 32 bytes 0
    require
        (le_at 4 bytes 0 == 0xfeedfacf
          && le_at 4 bytes 4 == 0x100000c
          && le_at 4 bytes 8 == 0
          && le_at 4 bytes 12 == 6)
        "Expected arm64 Mach-O dylib"
    let count = le_at 4 bytes 16
    let commands_size = le_at 4 bytes 20
    require (leb count 256 && leb (32 + commands_size) (length bytes))
        "Invalid Mach-O command table"
    (position, found) ← check_commands bytes (32 + commands_size) count 32 no_guests
    (bias, rw) ← finish position (32 + commands_size) found
    ok (bias, rw, digest bytes)
