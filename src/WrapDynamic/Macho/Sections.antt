-- ===== src/WrapDynamic/Macho/Sections.antt =====
-- tools/wrap_dynamic.py: `verify_macho`, the sections of one segment.
use artbox.Base.{
  ℕ, zero, suc, ◌+◌, ◌-◌, ◌%◌, leb, ◌==◌, ◌&&◌, if◌then◌else◌, Option, none, some, List, [], ◌∷◌,
  take, drop, Result, ok, err, require, ◌>>=◌, ◌>>◌,
}
use artbox.Base.Bytes.{le_at}
use artbox.Base.Text.{codes, ◌≟◌}
use artbox.Elf.{holds}
use artbox.WrapDynamic.Segments.{page, truncated}
use artbox.WrapDynamic.Layout.{PackedLayout}

pub record MachoSegment : Type 0 where
  pub name : List ℕ
  pub address : ℕ
  pub memory : ℕ
  pub offset : ℕ
  pub file_size : ℕ
  pub maximum : ℕ
  pub initial : ℕ
  pub sections : ℕ

-- `"<16s16sQQ8I"`
pub record MachoSection : Type 0 where
  pub sname : List ℕ
  pub segment : List ℕ
  pub target : ℕ
  pub size : ℕ
  pub fileoff : ℕ
  pub alignment : ℕ
  pub relocation_offset : ℕ
  pub relocations : ℕ
  pub flags : ℕ

-- The dict `found`: its keys are `__TEXT` and `__DATA`.
pub record Guests : Type 0 where
  pub text_at : Option ℕ
  pub data_at : Option ℕ

abbrev pub no_guests : Guests
no_guests = record { text_at = none; data_at = none }

-- `word.split(b"\0", 1)[0]`
abbrev pub c_string : List ℕ → List ℕ
c_string [] = []
c_string (zero ∷ cs) = []
c_string (suc c ∷ cs) = suc c ∷ c_string cs

abbrev pub guest_name : List ℕ
guest_name = codes "__artbox"

abbrev pub text_name : List ℕ
text_name = codes "__TEXT"

abbrev pub data_name : List ℕ
data_name = codes "__DATA"

abbrev pub section_at : List ℕ → ℕ → MachoSection
section_at bytes i = record {
  sname = c_string (take 16 (drop i bytes));
  segment = c_string (take 16 (drop (i + 16) bytes));
  target = le_at 8 bytes (i + 32);
  size = le_at 8 bytes (i + 40);
  fileoff = le_at 4 bytes (i + 48);
  alignment = le_at 4 bytes (i + 52);
  relocation_offset = le_at 4 bytes (i + 56);
  relocations = le_at 4 bytes (i + 60);
  flags = le_at 4 bytes (i + 64);
}

unfoldable pub read_section : List ℕ → ℕ → Result MachoSection
unfolding le_at
read_section bytes i = do holds truncated 80 bytes i; ok (section_at bytes i)

-- Where a guest section lies in its segment.
unfoldable pub check_place : MachoSegment → MachoSection → Result (Unit {0})
check_place s x = do
  require
      (leb s.address x.target
        && leb (x.target + x.size) (s.address + s.memory)
        && leb s.offset x.fileoff
        && leb (x.fileoff + x.size) (s.offset + s.file_size))
      "Guest section escapes its segment"
  require
      (x.target - s.address == x.fileoff - s.offset
        && x.target % page == 0
        && x.alignment == 14
        && x.relocation_offset == x.relocations
        && x.relocations == 0
        && x.flags % 256 == 0)
      "Guest section addressing, alignment or Mach-O relocations changed"

module _ (digest : List ℕ → List ℕ) where
  -- The bytes, their size and the permissions of the role `rx` or `rw`.
  unfoldable pub check_content :
      ℕ → ℕ → List ℕ → List ℕ → MachoSegment → MachoSection → Result (Unit {0})
  check_content initial size expected bytes s x =
      require
        (s.initial == initial
          && x.size == size
          && digest (take x.size (drop x.fileoff bytes)) ≟ expected)
        "Guest bytes, size or permissions changed during Apple linking"

module _ (digest : List ℕ → List ℕ) (layout : PackedLayout) where
  unfoldable pub check_text : List ℕ → MachoSegment → MachoSection → Guests → Result Guests
  check_text bytes s x found = elim found.text_at [
    | some earlier ↦ err "Duplicate or misplaced guest section"
    | none ↦ do
      check_place s x
      check_content digest 5 layout.rx_bytes layout.rx_digest bytes s x
      ok (record found { text_at = some x.target })
  ]

  unfoldable pub check_data : List ℕ → MachoSegment → MachoSection → Guests → Result Guests
  check_data bytes s x found = elim found.data_at [
    | some earlier ↦ err "Duplicate or misplaced guest section"
    | none ↦ do
      check_place s x
      check_content digest 3 layout.rw_bytes layout.rw_digest bytes s x
      ok (record found { data_at = some x.target })
  ]

  -- One section; those of another name are passed over.
  unfoldable pub check_section : List ℕ → MachoSegment → MachoSection → Guests → Result Guests
  unfolding ◌≟◌
  check_section bytes s x found =
      if x.sname ≟ guest_name
      then if x.segment ≟ s.name && s.name ≟ text_name
        then check_text bytes s x found
        else if x.segment ≟ s.name && s.name ≟ data_name
        then check_data bytes s x found
        else err "Duplicate or misplaced guest section"
      else ok found

  -- `for index in range(sections)`
  unfoldable pub check_sections : List ℕ → MachoSegment → ℕ → ℕ → Guests → Result Guests
  check_sections bytes s zero position found = ok found
  check_sections bytes s (suc rounds) position found = do
    x ← read_section bytes position
    found' ← check_section bytes s x found
    check_sections bytes s rounds (position + 80) found'
