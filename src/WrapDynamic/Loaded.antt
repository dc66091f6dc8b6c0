-- ===== src/WrapDynamic/Loaded.antt =====
-- tools/wrap_dynamic.py: the two images of `pack_layout` are what an ELF loader would map.
use artbox.Base.{
  ℕ, ◌+◌, ◌-◌, ◌≤◌, ◌<◌, ltb, leb, ◌&&◌, if◌then◌else◌, Bool, List, ◌++◌, length, take, drop,
  replicate, ok, ◌≡◌, refl, sym, ◌∙◌, arith, >>=-elim, ok-injective, Bool-cases, inl, inr,
  length-append, length-take, length-drop, length-replicate, get_or-append_left,
  get_or-append_right, get_or-take, get_or-drop, get_or-replicate, ltb→lt, ltb-false,
}
use artbox.Base.Bytes.{byte_at}
use artbox.Elf.{Header, read_header}
use artbox.WrapDynamic.Segments.{limit, truncated, Segment}
use artbox.WrapDynamic.Layout.{find_segments, rx_image, rw_image, PackedLayout, pack_layout}
use artbox.WrapDynamic.Found.{load_headers, InFile, IsSortedPair, find_segments-Found}

-- The byte that a loader puts at a virtual address of a segment: the file's, and 0 behind those.
abbrev pub covers : Segment → ℕ → Bool
covers s a = leb s.address a && ltb a (s.address + s.file_size)

abbrev pub loaded : List ℕ → Segment → Segment → ℕ → ℕ
loaded bytes code writable a =
    if covers code a
    then byte_at bytes (code.offset + (a - code.address))
    else if covers writable a
    then byte_at bytes (writable.offset + (a - writable.address))
    else 0

-- A window of the file with zeros behind it.
length-window :
    (bytes : List ℕ) (offset n k : ℕ)
    → offset + n ≤ length bytes
    → length (take n (drop offset bytes) ++ replicate k 0) ≡ n + k
length-window bytes offset n k h =
    length-append (take n (drop offset bytes)) (replicate k 0)
    ∙ omega (
      arith,
      length-take n (drop offset bytes),
      length-drop offset bytes,
      length-replicate {A = ℕ} k 0,
    )

byte_at-window :
    (bytes : List ℕ) (offset n k a : ℕ)
    → offset + n ≤ length bytes
    → byte_at (take n (drop offset bytes) ++ replicate k 0) a
      ≡ (if ltb a n then byte_at bytes (offset + a) else 0)
byte_at-window bytes offset n k a h =
    let size : length (take n (drop offset bytes)) ≡ n =
      omega (arith, length-take n (drop offset bytes), length-drop offset bytes) in
    elim (Bool-cases (ltb a n)) [
      | inl inside ↦ rw inside (
          get_or-append_left (take n (drop offset bytes)) (replicate k 0) a 0
            (omega (arith, ltb→lt a n inside))
          ∙ get_or-take n (drop offset bytes) a 0 (ltb→lt a n inside)
          ∙ get_or-drop offset bytes a 0)
      | inr outside ↦ rw outside (
          get_or-append_right (take n (drop offset bytes)) (replicate k 0) a 0
            (omega (arith, ltb-false a n outside))
          ∙ get_or-replicate k 0 (a - length (take n (drop offset bytes))))
    ]

loaded-below :
    (bytes : List ℕ) (code writable : Segment) (a : ℕ)
    → (code.address ≡ 0) × (code.offset ≡ 0)
    → a < writable.address
    → (if ltb a code.file_size then byte_at bytes (0 + a) else 0) ≡ loaded bytes code writable a
loaded-below bytes code writable a start below =
    let place : code.offset + (a - code.address) ≡ 0 + a = omega arith in rw place (ground arith)

loaded-above :
    (bytes : List ℕ) (code writable : Segment) (a : ℕ)
    → code.address + code.file_size ≤ writable.address
    → writable.address ≤ a
    → (if ltb (a - writable.address) writable.file_size
        then byte_at bytes (writable.offset + (a - writable.address))
        else 0)
      ≡ loaded bytes code writable a
loaded-above bytes code writable a order above = ground arith

images-loaded :
    (bytes : List ℕ) (code writable : Segment)
    → (code.address ≡ 0) × (code.offset ≡ 0)
    → code.file_size ≤ writable.address
    → InFile bytes code
    → InFile bytes writable
    → (length (rx_image bytes code writable) ≡ writable.address)
      × (length (rw_image bytes writable) ≡ writable.memory_size)
      × ((a : ℕ)
          → byte_at (rx_image bytes code writable ++ rw_image bytes writable) a
            ≡ loaded bytes code writable a)
unfolding rx_image rw_image
images-loaded bytes code writable start order c w =
    let head : 0 + code.file_size ≤ length bytes = omega arith in
    let rx_size = length-window bytes 0 code.file_size (writable.address - code.file_size) head in
    let rw_size =
      length-window bytes writable.offset writable.file_size
        (writable.memory_size - writable.file_size) w.0 in
    let rx_length : length (rx_image bytes code writable) ≡ writable.address =
      omega (arith, rx_size) in
    (
      rx_length,
      omega (arith, rw_size),
      λ a. elim (Bool-cases (ltb a writable.address)) [
        | inl below ↦
            get_or-append_left (rx_image bytes code writable) (rw_image bytes writable) a 0
              (omega (arith, ltb→lt a writable.address below))
            ∙ byte_at-window bytes 0 code.file_size (writable.address - code.file_size) a head
            ∙ loaded-below bytes code writable a start (ltb→lt a writable.address below)
        | inr above ↦
            let past = ltb-false a writable.address above in
            get_or-append_right (rx_image bytes code writable) (rw_image bytes writable) a 0
              (omega (arith, past))
            ∙ rw rx_length (
                byte_at-window bytes writable.offset writable.file_size
                  (writable.memory_size - writable.file_size) (a - writable.address) w.0)
            ∙ loaded-above bytes code writable a (omega arith) past
      ],
    )

-- What the images are to a loader.
pub record IsPacked (digest : List ℕ → List ℕ) (bytes : List ℕ) (h : Header)
    (code writable : Segment) (packed : List ℕ × List ℕ × PackedLayout) : Type 0 where
  pub header : read_header truncated bytes ≡ ok h
  pub pair : IsSortedPair (load_headers bytes h.phoff h.phnum 0) code writable
  pub permissions : (code.flags ≡ 5) × (writable.flags ≡ 6)
  pub in_file : InFile bytes code × InFile bytes writable
  pub sizes : (length packed.0 ≡ writable.address) × (length packed.1 ≡ writable.memory_size)
  pub bounded : writable.address + writable.memory_size ≤ limit
  pub entry : h.entry < code.file_size
  pub image : (a : ℕ) → byte_at (packed.0 ++ packed.1) a ≡ loaded bytes code writable a
  pub layout :
      (packed.2.rx_bytes ≡ length packed.0)
      × (packed.2.rw_bytes ≡ length packed.1)
      × (packed.2.rx_digest ≡ digest packed.0)
      × (packed.2.rw_digest ≡ digest packed.1)
      × (packed.2.writable ≡ writable)

-- What `pack_layout` returns is of the two loadable segments of the program headers, sorted by
-- address, readable and executable, and readable and writable, both in the file; the images
-- have the sizes that the layout names and fit the size limit together, the entry lies in the
-- first, the layout holds their digests, and each byte of the two in a row is the one that an
-- ELF loader would put at that address.
pub pack_layout-IsPacked :
    (digest : List ℕ → List ℕ) (bytes : List ℕ) (packed : List ℕ × List ℕ × PackedLayout)
    → pack_layout digest bytes ≡ ok packed
    → (h : Header) × (code : Segment) × (writable : Segment) × IsPacked digest bytes h code writable
        packed
unfolding pack_layout
pack_layout-IsPacked digest bytes packed e = >>=-elim (find_segments bytes) e λ segments found e₁.
    let (h, f) = find_segments-Found bytes segments found in
    let code = segments.0 in
    let writable = segments.1 in
    let (rx_size, rw_size, image) =
      images-loaded bytes code writable f.facts.start f.facts.order.0 f.in_file.0 f.in_file.1 in
    rw (sym (ok-injective e₁)) (
      h,
      code,
      writable,
      record {
        header = f.header;
        pair = f.pair;
        permissions = f.facts.permissions;
        in_file = f.in_file;
        sizes = (rx_size, rw_size);
        bounded = f.facts.bounded;
        entry = f.facts.entry;
        image = image;
        layout = (refl, refl, refl, refl, refl);
      },
    )
