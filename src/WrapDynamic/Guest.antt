-- ===== src/WrapDynamic/Guest.antt =====
-- tools/wrap_dynamic.py: what the checks of `verify_macho` establish of one guest section.
use artbox.Base.{
  ℕ, zero, suc, ◌+◌, ◌*◌, ◌-◌, ◌%◌, ◌≤◌, ◌<◌, bit_and, leb, List, length, take, drop, ok, ◌≡◌, ◌≢◌,
  arith, require-elim, ok-injective,
}
use artbox.Base.Bytes.{le_at}
use artbox.Base.Text.{codes, ≟_iff}
use artbox.WrapDynamic.Segments.{page, truncated}
use artbox.WrapDynamic.Macho.{segment_at, read_segment, check_segment}
use artbox.WrapDynamic.Macho.Sections.{
  MachoSegment, MachoSection, section_at, read_section, check_place, check_content,
}

-- Where the load commands of a dylib stand: one behind the other, from the header on.
abbrev pub command_at : List ℕ → ℕ → ℕ
command_at bytes zero = 32
command_at bytes (suc n) = command_at bytes n + le_at 4 bytes (command_at bytes n + 4)

-- The segment of a load command of the dylib, which is one of the commands that its header counts and
-- whose segment lies in the file.
pub record IsSegment (bytes : List ℕ) (s : MachoSegment) : Type 0 where
  pub command : ℕ
  pub counted : command < le_at 4 bytes 16
  pub kind : le_at 4 bytes (command_at bytes command) ≡ 0x19
  pub read : segment_at bytes (command_at bytes command) ≡ s
  pub in_file : s.offset + s.file_size ≤ length bytes
  pub in_memory : s.file_size ≤ s.memory
  pub safe : bit_and s.maximum 6 ≢ 6

-- A section of such a segment, by its number in the command.
pub record IsSection (bytes : List ℕ) (s : MachoSegment) (is : IsSegment bytes s) (x : MachoSection)
    : Type 0 where
  pub number : ℕ
  pub counted : number < s.sections
  pub read : section_at bytes (command_at bytes is.command + 72 + number * 80) ≡ x

-- A guest section of the file: its segment and itself, as the file has them.
pub record Guest (digest : List ℕ → List ℕ) (bytes : List ℕ) (initial size : ℕ) (expected : List ℕ)
    (name : List ℕ) (target : ℕ) : Type 0 where
  pub segment : MachoSegment
  pub section : MachoSection
  pub is_segment : IsSegment bytes segment
  pub is_section : IsSection bytes segment is_segment section
  pub names : (section.sname ≡ codes "__artbox") × (segment.name ≡ name)
  pub initially : segment.initial ≡ initial
  pub mapped :
      (segment.offset ≤ section.fileoff)
      × (target ≡ segment.address + (section.fileoff - segment.offset))
  pub in_memory : target + size ≤ segment.address + segment.memory
  pub in_extent : section.fileoff + size ≤ segment.offset + segment.file_size
  pub aligned : target % page ≡ 0
  pub content : digest (take size (drop section.fileoff bytes)) ≡ expected

pub read_segment-read :
    (bytes : List ℕ) (i : ℕ) (s : MachoSegment)
    → read_segment bytes i ≡ ok s
    → segment_at bytes i ≡ s
unfolding read_segment
read_segment-read bytes i s e =
    require-elim (leb (i + 72) (length bytes)) truncated e λ _ rest. ok-injective rest

pub read_section-read :
    (bytes : List ℕ) (i : ℕ) (x : MachoSection)
    → read_section bytes i ≡ ok x
    → section_at bytes i ≡ x
unfolding read_section
read_section-read bytes i x e =
    require-elim (leb (i + 80) (length bytes)) truncated e λ _ rest. ok-injective rest

pub segment_facts :
    (bytes : List ℕ) (size : ℕ) (s : MachoSegment) {u : Unit {0}}
    → check_segment bytes size s ≡ ok u
    → (s.offset + s.file_size ≤ length bytes) × (s.file_size ≤ s.memory) × (bit_and s.maximum 6 ≢ 6)
unfolding check_segment
segment_facts bytes size s checked = (ground arith, ground arith, λ e. ground arith)

place_facts :
    (s : MachoSegment) (x : MachoSection) {u : Unit {0}}
    → check_place s x ≡ ok u
    → (s.offset ≤ x.fileoff)
      × (x.target ≡ s.address + (x.fileoff - s.offset))
      × (x.target % page ≡ 0)
      × (x.fileoff + x.size ≤ s.offset + s.file_size)
      × (x.target + x.size ≤ s.address + s.memory)
unfolding check_place
place_facts s x e = ground arith

content_facts :
    (digest : List ℕ → List ℕ) (initial size : ℕ) (expected bytes : List ℕ) (s : MachoSegment)
    (x : MachoSection) {u : Unit {0}}
    → check_content digest initial size expected bytes s x ≡ ok u
    → (s.initial ≡ initial)
      × (x.size ≡ size)
      × (digest (take x.size (drop x.fileoff bytes)) ≡ expected)
unfolding check_content
content_facts digest initial size expected bytes s x e =
    ground (arith, ≟_iff (digest (take x.size (drop x.fileoff bytes))) expected)

pub guest :
    (digest : List ℕ → List ℕ) (bytes : List ℕ) (initial size : ℕ) (expected name : List ℕ)
    (s : MachoSegment) (x : MachoSection) (is : IsSegment bytes s) {u v : Unit {0}}
    → IsSection bytes s is x
    → (x.sname ≡ codes "__artbox") × (s.name ≡ name)
    → check_place s x ≡ ok u
    → check_content digest initial size expected bytes s x ≡ ok v
    → Guest digest bytes initial size expected name x.target
guest digest bytes initial size expected name s x is at names placed same =
    let (within, mapped, aligned, ending, memory) = place_facts s x placed in
    let (permissions, sized, content) = content_facts digest initial size expected bytes s x same in
    record {
      segment = s;
      section = x;
      is_segment = is;
      is_section = at;
      names = names;
      initially = permissions;
      mapped = (within, mapped);
      in_memory = omega (arith, memory, sized);
      in_extent = omega (arith, ending, sized);
      aligned = aligned;
      content = rw sized at content;
    }
