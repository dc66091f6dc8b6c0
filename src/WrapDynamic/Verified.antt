-- ===== src/WrapDynamic/Verified.antt =====
-- tools/wrap_dynamic.py: what a dylib that `verify_macho` accepts holds.
use artbox.Base.{
  ℕ, zero, suc, ◌+◌, ◌*◌, ◌%◌, ◌<◌, leb, and-eq-true, ==_iff, ◌==◌, ◌&&◌, some, List, length, ok,
  ◌>>=◌, ◌>>◌, ◌≡◌, refl, sym, ap, arith, >>=-elim, require-elim, ok-injective, Bool-cases,
  Option-cases, inl, inr,
}
use artbox.Base.Bytes.{le_at}
use artbox.Base.Text.{codes, ◌≟◌, ≟_iff}
use artbox.Elf.{holds}
use artbox.WrapDynamic.Segments.{truncated}
use artbox.WrapDynamic.Layout.{PackedLayout}
use artbox.WrapDynamic.Macho.{
  read_segment, check_segment, check_command, check_commands, finish, verify_macho,
}
use artbox.WrapDynamic.Macho.Sections.{
  MachoSegment, MachoSection, Guests, no_guests, read_section, check_place, check_content,
  check_text, check_data, check_section, check_sections, guest_name, text_name, data_name,
}
use artbox.WrapDynamic.Guest.{
  Guest, IsSegment, IsSection, command_at, read_section-read, read_segment-read, segment_facts,
  guest,
}

module _ (digest : List ℕ → List ℕ) (layout : PackedLayout) (bytes : List ℕ) where
  -- What the dict `found` promises.
  abbrev Holds : Guests → Type 0
  Holds found =
      ((t : ℕ)
        → found.text_at ≡ some t
        → Guest digest bytes 5 layout.rx_bytes layout.rx_digest (codes "__TEXT") t)
      × ((t : ℕ)
          → found.data_at ≡ some t
          → Guest digest bytes 3 layout.rw_bytes layout.rw_digest (codes "__DATA") t)

  check_text-Holds :
      (s : MachoSegment) (x : MachoSection) (is : IsSegment bytes s) (found found' : Guests)
      → IsSection bytes s is x
      → (x.sname ≡ codes "__artbox") × (s.name ≡ codes "__TEXT")
      → Holds found
      → check_text digest layout bytes s x found ≡ ok found'
      → Holds found'
  unfolding check_text
  check_text-Holds s x is found found' read names before e = elim (Option-cases found.text_at) [
    | inr (t, taken) ↦ cc (rw taken at e)
    | inl free ↦
        let e₀ : (check_place s x
              >> (check_content digest 5 layout.rx_bytes layout.rx_digest bytes s x
                  >> ok (record found { text_at = some x.target })))
            ≡ ok found' =
          rw free at e in
        >>=-elim (check_place s x) e₀ λ _ placed e₁.
          >>=-elim (check_content digest 5 layout.rx_bytes layout.rx_digest bytes s x) e₁
            λ _ same e₂. rw (sym (ok-injective e₂)) (
              (λ t here.
                  let e₃ : t ≡ x.target = cc in
                  rw e₃ (
                    guest digest bytes 5 layout.rx_bytes layout.rx_digest (codes "__TEXT") s x is
                      read names placed same)),
              before.1,
            )
  ]

  check_data-Holds :
      (s : MachoSegment) (x : MachoSection) (is : IsSegment bytes s) (found found' : Guests)
      → IsSection bytes s is x
      → (x.sname ≡ codes "__artbox") × (s.name ≡ codes "__DATA")
      → Holds found
      → check_data digest layout bytes s x found ≡ ok found'
      → Holds found'
  unfolding check_data
  check_data-Holds s x is found found' read names before e = elim (Option-cases found.data_at) [
    | inr (t, taken) ↦ cc (rw taken at e)
    | inl free ↦
        let e₀ : (check_place s x
              >> (check_content digest 3 layout.rw_bytes layout.rw_digest bytes s x
                  >> ok (record found { data_at = some x.target })))
            ≡ ok found' =
          rw free at e in
        >>=-elim (check_place s x) e₀ λ _ placed e₁.
          >>=-elim (check_content digest 3 layout.rw_bytes layout.rw_digest bytes s x) e₁
            λ _ same e₂. rw (sym (ok-injective e₂)) (
              before.0,
              λ t here.
                  let e₃ : t ≡ x.target = cc in
                  rw e₃ (
                    guest digest bytes 3 layout.rw_bytes layout.rw_digest (codes "__DATA") s x is
                      read names placed same),
            )
  ]

  check_section-Holds :
      (s : MachoSegment) (x : MachoSection) (is : IsSegment bytes s) (found found' : Guests)
      → IsSection bytes s is x
      → Holds found
      → check_section digest layout bytes s x found ≡ ok found'
      → Holds found'
  unfolding check_section
  check_section-Holds s x is found found' read before e = elim (Bool-cases (x.sname ≟ guest_name)) [
    | inr other ↦ let same : found ≡ found' = ok-injective (rw other at e) in rw (sym same) before
    | inl ours ↦ elim (Bool-cases (x.segment ≟ s.name && s.name ≟ text_name)) [
      | inl text ↦
          let names = and-eq-true (x.segment ≟ s.name) (s.name ≟ text_name) text in
          check_text-Holds s x is found found' read
            ((≟_iff x.sname guest_name).0 ours, (≟_iff s.name text_name).0 names.1) before
            (rw (ours, text) at e)
      | inr no_text ↦ elim (Bool-cases (x.segment ≟ s.name && s.name ≟ data_name)) [
        | inl writable ↦
            let names = and-eq-true (x.segment ≟ s.name) (s.name ≟ data_name) writable in
            check_data-Holds s x is found found' read
              ((≟_iff x.sname guest_name).0 ours, (≟_iff s.name data_name).0 names.1) before
              (rw (ours, no_text, writable) at e)
        | inr neither ↦ cc (rw (ours, no_text, neither) at e)
      ]
    ]
  ]

  check_sections-Holds :
      (s : MachoSegment) (is : IsSegment bytes s) (rounds number : ℕ) (found found' : Guests)
      → number + rounds ≡ s.sections
      → Holds found
      → check_sections digest layout bytes s rounds
          (command_at bytes is.command + 72 + number * 80)
          found
        ≡ ok found'
      → Holds found'
  unfolding check_sections
  check_sections-Holds s is zero number found found' many before e =
      rw (sym (ok-injective e)) before
  check_sections-Holds s is (suc rounds) number found found' many before e =
      let position = command_at bytes is.command + 72 + number * 80 in
      >>=-elim (read_section bytes position) e λ x read e₁.
        >>=-elim (check_section digest layout bytes s x found) e₁ λ found₁ checked e₂.
          let next : position + 80 ≡ command_at bytes is.command + 72 + (number + 1) * 80 =
            omega arith in
          check_sections-Holds s is rounds (number + 1) found₁ found' (omega arith)
            (check_section-Holds s x is found found₁
              (record {
                number = number;
                counted = omega arith;
                read = read_section-read bytes position x read;
              })
              before checked)
            (rw next at e₂)

  check_command-Holds :
      (n size : ℕ) (found found' : Guests)
      → n < le_at 4 bytes 16
      → Holds found
      → check_command digest layout bytes
          (command_at bytes n)
          (le_at 4 bytes (command_at bytes n))
          size
          found
        ≡ ok found'
      → Holds found'
  unfolding check_command
  check_command-Holds n size found found' few before e =
      let position = command_at bytes n in
      elim (Bool-cases (le_at 4 bytes position == 0x19)) [
        | inr other ↦
            let same : found ≡ found' = ok-injective (rw other at e) in rw (sym same) before
        | inl segment ↦
            let e₀ : (read_segment bytes position >>= λ s.
            check_segment bytes size s
            >> check_sections digest layout bytes s s.sections (position + 72) found)
                ≡ ok found' =
              rw segment at e in
            >>=-elim (read_segment bytes position) e₀ λ s read e₁.
              >>=-elim (check_segment bytes size s) e₁ λ _ checked e₂.
                let (in_file, in_memory, safe) = segment_facts bytes size s checked in
                let is : IsSegment bytes s = record {
                  command = n;
                  counted = few;
                  kind = (==_iff (le_at 4 bytes position) 0x19).0 segment;
                  read = read_segment-read bytes position s read;
                  in_file = in_file;
                  in_memory = in_memory;
                  safe = safe;
                } in
                let first : position + 72 ≡ position + 72 + 0 * 80 = omega arith in
                check_sections-Holds s is s.sections 0 found found' (omega arith) before
                  (rw first at e₂)
      ]

  check_commands-Holds :
      (end rounds n last : ℕ) (found found' : Guests)
      → n + rounds ≡ le_at 4 bytes 16
      → Holds found
      → check_commands digest layout bytes end rounds (command_at bytes n) found ≡ ok (last, found')
      → Holds found'
  unfolding check_commands
  check_commands-Holds end zero n last found found' many before e =
      rw (sym (ap (λ p. p.1) (ok-injective e))) before
  check_commands-Holds end (suc rounds) n last found found' many before e =
      let position = command_at bytes n in
      let size = le_at 4 bytes (position + 4) in
      >>=-elim (holds truncated 8 bytes position) e λ _ _ e₁.
        require-elim (leb 8 size && size % 8 == 0 && leb (position + size) end)
          "Invalid Mach-O load command" e₁
          λ _ e₂.
            >>=-elim
              (check_command digest layout bytes position (le_at 4 bytes position) size found) e₂
              λ found₁ checked e₃.
                check_commands-Holds end rounds (suc n) last found₁ found' (omega arith)
                  (check_command-Holds n size found found₁ (omega arith) before checked) e₃

  finish_facts :
      (position end : ℕ) (found : Guests) (pair : ℕ × ℕ)
      → finish digest layout position end found ≡ ok pair
      → (found.text_at ≡ some pair.0)
        × (found.data_at ≡ some pair.1)
        × (pair.1 ≡ pair.0 + layout.writable.address)
  unfolding finish
  finish_facts position end found pair e = ground arith

  -- What is promised of the dict that `verify_macho` returns.
  pub record IsVerified (placed : ℕ × ℕ × List ℕ) : Type 0 where
    pub text : Guest digest bytes 5 layout.rx_bytes layout.rx_digest (codes "__TEXT") placed.0
    pub writable : Guest digest bytes 3 layout.rw_bytes layout.rw_digest (codes "__DATA") placed.1
    pub kept_bias : placed.1 ≡ placed.0 + layout.writable.address
    pub whole : placed.2 ≡ digest bytes

  -- A dylib that `verify_macho` accepts has a guest section in a segment with permissions 5 and
  -- one in a segment with permissions 3, neither of which may ever be writable and executable;
  -- both are mapped from the file, aligned to 16 KiB, and have the sizes and digests of the
  -- layout, the second lies at the ELF distance from the first, and the digest returned is that
  -- of the file.
  pub verify_macho-IsVerified :
      (placed : ℕ × ℕ × List ℕ) → verify_macho digest layout bytes ≡ ok placed → IsVerified placed
  unfolding verify_macho
  verify_macho-IsVerified placed e =
      let end = 32 + le_at 4 bytes 20 in
      >>=-elim (holds truncated 32 bytes 0) e λ _ _ e₁.
        require-elim
          (le_at 4 bytes 0 == 0xfeedfacf
            && le_at 4 bytes 4 == 0x100000c
            && le_at 4 bytes 8 == 0
            && le_at 4 bytes 12 == 6)
          "Expected arm64 Mach-O dylib" e₁
          λ _ e₂.
            require-elim (leb (le_at 4 bytes 16) 256 && leb end (length bytes))
              "Invalid Mach-O command table" e₂
              λ _ e₃.
                >>=-elim (check_commands digest layout bytes end (le_at 4 bytes 16) 32 no_guests) e₃
                  λ reached commands e₄.
                    >>=-elim (finish digest layout reached.0 end reached.1) e₄ λ pair finished e₅.
                      let (text, writable, kept) =
                        finish_facts reached.0 end reached.1 pair finished in
                      let held =
                        check_commands-Holds end (le_at 4 bytes 16) 0 reached.0 no_guests reached.1
                          (omega arith) ((λ t h. cc), (λ t h. cc)) commands in
                      rw (sym (ok-injective e₅)) (record {
                        text = held.0 pair.0 text;
                        writable = held.1 pair.1 writable;
                        kept_bias = kept;
                        whole = refl;
                      })
