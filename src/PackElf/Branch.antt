-- ===== src/PackElf/Branch.antt =====
-- tools/pack_elf.py: `branch`, and the target that `inspect_text` reads from a branch.
use artbox.Base.{
  ℕ, ◌+◌, ◌-◌, ◌/◌, ◌%◌, ◌^◌, ◌≤◌, ◌<◌, bit_and, bit_or, ◌≡◌, refl, ◌==◌, ◌&&◌, arith, ◌∙◌, Result,
  ok, require, ◌>>◌, ◌↔◌, require-eq-ok, ok-injective, sym,
}
use artbox.Base.Int.{
  ℤ, pos, negsuc, sub_ℕ, floor_mod, floor_div, and_mask, leb_ℤ, ltb_ℤ, ◌+ℤ◌, scale,
}
use artbox.Base.Bits.{bit_and_mask, bit_and_split, bit_and-zero, bit_or_join}
use artbox.PackElf.Numbers.{signed, signed_lem}

unfoldable pub branch : ℕ → ℕ → Result ℕ
branch source target =
    let distance = sub_ℕ target source in
    do
      require
          (floor_mod distance 4 == 0
            && leb_ℤ (negsuc (2 ^ 27 - 1)) distance
            && ltb_ℤ distance (pos (2 ^ 27)))
          "veneer out of branch range"
      ok (bit_or 0x14000000 (and_mask (floor_div distance 4) 0x3ffffff))

-- `pc + signed(word & 0x3ffffff, 26) * 4`
unfoldable pub branch_target : ℕ → ℕ → ℤ
branch_target pc word = pos pc +ℤ scale (signed (bit_and word 0x3ffffff) 26) 4

-- The number that `branch` puts into the 26 low bits.
abbrev offset_bits : ℕ → ℕ → ℕ
offset_bits source target = and_mask (floor_div (sub_ℕ target source) 4) 0x3ffffff

module _ (source target : ℕ) where
  offset_bits-lt : offset_bits source target < 2 ^ 26
  offset_bits-lt =
      ground (
        arith,
        bit_and_mask 26 ((target - source) / 4),
        bit_and_mask 26 ((source - target - 1) / 4),
      )

  branch_word :
      bit_or 0x14000000 (offset_bits source target) ≡ 0x14000000 + offset_bits source target
  branch_word = bit_or_join 26 5 (offset_bits source target) offset_bits-lt

  -- Reading the 26 bits back as a signed number of words gives the distance.
  offset_bits-signed :
      floor_mod (sub_ℕ target source) 4 ≡ 0
      → source ≤ target + 2 ^ 27
      → target < source + 2 ^ 27
      → scale (signed (offset_bits source target) 26) 4 ≡ sub_ℕ target source
  unfolding scale
  offset_bits-signed aligned low high =
      rw (signed_lem 25 (offset_bits source target) offset_bits-lt) (
        ground (
          arith,
          bit_and_mask 26 ((target - source) / 4),
          bit_and_mask 26 ((source - target - 1) / 4),
        ))

  -- A branch that `branch` encodes has the opcode of B, fits 32 bits, and its target as
  -- `inspect_text` reads it is the target that was asked for.
  pub branch-decodes :
      {word : ℕ}
      → branch source target ≡ ok word
      → (bit_and word 0xfc000000 ≡ 0x14000000)
        × (word < 2 ^ 32)
        × (branch_target source word ≡ pos target)
  unfolding branch branch_target
  branch-decodes {word} h =
      let (inside, e) =
        require-eq-ok
          (floor_mod (sub_ℕ target source) 4 == 0
            && leb_ℤ (negsuc (2 ^ 27 - 1)) (sub_ℕ target source)
            && ltb_ℤ (sub_ℕ target source) (pos (2 ^ 27)))
          "veneer out of branch range" (ok (bit_or 0x14000000 (offset_bits source target))) h in
      let value : word ≡ 0x14000000 + offset_bits source target =
        sym (ok-injective e) ∙ branch_word in
      let off = offset_bits source target in
      let small = offset_bits-lt in
      let low : bit_and (0x14000000 + off) 0x3ffffff ≡ off =
        bit_and_mask 26 (0x14000000 + off) ∙ omega arith in
      let op : (0x14000000 + off) / 2 ^ 26 ≡ 5 = omega arith in
      let high : bit_and (0x14000000 + off) 0xfc000000 ≡ 0x14000000 =
        bit_and_split 26 (0x14000000 + off) 63 0 (omega arith)
        ∙ rw (op, bit_and-zero ((0x14000000 + off) % 2 ^ 26)) refl in
      rw value (
        high,
        omega arith,
        rw (low, offset_bits-signed (ground arith) (ground arith) (ground arith))
            (unfold ◌+ℤ◌ in ground arith),
      )

  -- `branch` succeeds exactly when the distance is a multiple of four, at least -2 ** 27 and
  -- below 2 ** 27.
  pub branch-eq-ok_iff : ((w : ℕ) × (branch source target ≡ ok w)) ↔ (
      (floor_mod (sub_ℕ target source) 4 ≡ 0)
      × (source ≤ target + 2 ^ 27)
      × (target < source + 2 ^ 27))
  unfolding branch
  branch-eq-ok_iff = (
    (λ h. ground (arith, h.1)),
    (λ h. (bit_or 0x14000000 (offset_bits source target), ground arith)),
  )
