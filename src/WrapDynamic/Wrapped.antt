-- ===== src/WrapDynamic/Wrapped.antt =====
-- tools/wrap_dynamic.py: `pack_layout` and `verify_macho` together, as `main` runs them around the
-- linker.
use artbox.Base.{
  ℕ, ◌+◌, ◌-◌, ◌%◌, ◌<◌, ◌≤◌, List, length, take, drop, ok, ◌≡◌, sym, ◌∙◌, refl, arith,
  get_or-append_left, get_or-append_right, get_or-take, get_or-drop,
}
use artbox.Base.Bytes.{byte_at}
use artbox.Base.Text.{codes}
use artbox.Elf.{Header, read_header}
use artbox.WrapDynamic.Segments.{page, truncated, Segment}
use artbox.WrapDynamic.Layout.{PackedLayout, pack_layout}
use artbox.WrapDynamic.Found.{load_headers, IsSortedPair}
use artbox.WrapDynamic.Loaded.{loaded, IsPacked, pack_layout-IsPacked}
use artbox.WrapDynamic.Macho.{verify_macho}
use artbox.WrapDynamic.Macho.Sections.{MachoSegment}
use artbox.WrapDynamic.Guest.{Guest, IsSegment}
use artbox.WrapDynamic.Verified.{IsVerified, verify_macho-IsVerified}

-- No other bytes have the digest of these.
abbrev pub NoCollision : (List ℕ → List ℕ) → List ℕ → Type 0
NoCollision digest bytes = (others : List ℕ) → digest others ≡ digest bytes → others ≡ bytes

-- The system maps this byte of the file at an address of a segment of the dylib, which is one of the
-- segment's memory and of its extent in the file.
pub record Maps (dylib : List ℕ) (s : MachoSegment) (a byte : ℕ) : Type 0 where
  pub above : s.address ≤ a
  pub below : a < s.address + s.memory
  pub in_extent : a - s.address < s.file_size
  pub is : byte_at dylib (s.offset + (a - s.address)) ≡ byte

-- The dylib's bytes are the ELF's as a loader would map it, at one bias.
pub record IsWrapped (elf dylib : List ℕ) (code writable : Segment) (bias rw_address : ℕ)
    : Type 0 where
  pub text : MachoSegment
  pub data_segment : MachoSegment
  pub segments : IsSegment dylib text × IsSegment dylib data_segment
  pub names : (text.name ≡ codes "__TEXT") × (data_segment.name ≡ codes "__DATA")
  pub permissions : (text.initial ≡ 5) × (data_segment.initial ≡ 3)
  pub rx_bytes :
      (a : ℕ) → a < writable.address → Maps dylib text (bias + a) (loaded elf code writable a)
  pub rw_bytes :
      (a : ℕ)
      → a < writable.memory_size
      → Maps dylib data_segment (rw_address + a) (loaded elf code writable (writable.address + a))
  pub kept_bias : rw_address ≡ bias + writable.address
  pub aligned : (bias % page ≡ 0) × (rw_address % page ≡ 0)

-- Bytes that are a window of a file.
byte_at-slice :
    (bytes image : List ℕ) (offset size a : ℕ)
    → take size (drop offset bytes) ≡ image
    → a < size
    → byte_at bytes (offset + a) ≡ byte_at image a
byte_at-slice bytes image offset size a same h =
    sym (get_or-drop offset bytes a 0)
    ∙ sym (get_or-take size (drop offset bytes) a 0 h)
    ∙ rw same refl

module _ (digest : List ℕ → List ℕ) (dylib image : List ℕ) (size : ℕ) where
  -- A guest section of the digest of an image has its bytes where they are mapped.
  mapped-guest :
      (initial target a byte : ℕ) (expected name : List ℕ)
      (g : Guest digest dylib initial size expected name target)
      → expected ≡ digest image
      → NoCollision digest image
      → a < size
      → byte_at image a ≡ byte
      → Maps dylib g.segment (target + a) byte
  mapped-guest initial target a byte expected name g e unique h is =
      let place : g.segment.offset + (target + a - g.segment.address) ≡ g.section.fileoff + a =
        omega (arith, g.mapped) in
      record {
        above = omega (arith, g.mapped);
        below = omega (arith, g.in_memory);
        in_extent = omega (arith, g.mapped, g.in_extent);
        is =
            rw place (
              byte_at-slice dylib image g.section.fileoff size a
                (unique (take size (drop g.section.fileoff dylib)) (g.content ∙ e)) h)
            ∙ is;
      }

module _ (digest : List ℕ → List ℕ) (elf dylib rx rw_image : List ℕ) (layout : PackedLayout)
    (placed : ℕ × ℕ × List ℕ) where
  wrapped :
      (h : Header) (code writable : Segment)
      → IsPacked digest elf h code writable (rx, rw_image, layout)
      → IsVerified digest layout dylib placed
      → NoCollision digest rx
      → NoCollision digest rw_image
      → IsWrapped elf dylib code writable placed.0 placed.1
  wrapped h code writable p v one other = record {
    text = v.text.segment;
    data_segment = v.writable.segment;
    segments = (v.text.is_segment, v.writable.is_segment);
    names = (v.text.names.1, v.writable.names.1);
    permissions = (v.text.initially, v.writable.initially);
    rx_bytes = λ a below.
        mapped-guest digest dylib rx layout.rx_bytes 5 placed.0 a (loaded elf code writable a)
          layout.rx_digest (codes "__TEXT") v.text p.layout.2 one
          (omega (arith, p.layout.0, p.sizes.0))
          (sym (get_or-append_left rx rw_image a 0 (omega (arith, p.sizes.0))) ∙ p.image a);
    rw_bytes = λ a below.
        let back : writable.address + a - length rx ≡ a = omega (arith, p.sizes.0) in
        mapped-guest digest dylib rw_image layout.rw_bytes 3 placed.1 a
          (loaded elf code writable (writable.address + a)) layout.rw_digest (codes "__DATA")
          v.writable p.layout.3 other (omega (arith, p.layout.1, p.sizes.1))
          (sym (
              rw back at (
                get_or-append_right rx rw_image (writable.address + a) 0
                  (omega (arith, p.sizes.0))))
            ∙ p.image (writable.address + a));
    kept_bias = v.kept_bias ∙ rw p.layout.4 refl;
    aligned = (v.text.aligned, v.writable.aligned);
  }

  -- When `pack_layout` accepts an ELF and `verify_macho` accepts a dylib against its layout,
  -- and no other bytes have the digests of the two images, then at one bias the dylib maps at
  -- every address of the image the byte that an ELF loader would put there: that of the two
  -- loadable segments that the header of the ELF lists, in the order of their addresses, and
  -- zero behind them. The address lies in the memory and in the file extent of a segment of the
  -- dylib, __TEXT with permissions 5 or __DATA with permissions 3, each that of one of the load
  -- commands that the header of the dylib counts.
  pub pack_layout-verify_macho :
      pack_layout digest elf ≡ ok (rx, rw_image, layout)
      → verify_macho digest layout dylib ≡ ok placed
      → NoCollision digest rx
      → NoCollision digest rw_image
      → (h : Header) × (code : Segment) × (writable : Segment) × (read_header truncated elf ≡ ok h)
        × IsSortedPair (load_headers elf h.phoff h.phnum 0) code writable
        × IsWrapped elf dylib code writable placed.0 placed.1
  pack_layout-verify_macho packed verified one other =
      let (h, code, writable, p) = pack_layout-IsPacked digest elf (rx, rw_image, layout) packed in
      let v = verify_macho-IsVerified digest layout dylib placed verified in
      (h, code, writable, p.header, p.pair, wrapped h code writable p v one other)
