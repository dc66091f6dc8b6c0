-- ===== src/PackElf/Inspect/Families.antt =====
-- tools/pack_elf.py: the instruction families that `inspect_text` lets through, by the fields of
-- the A64 encoding.
use artbox.Base.{
  ◌⊎◌, ℕ, ◌+◌, ◌*◌, ◌/◌, ◌%◌, ◌^◌, ◌<◌, bit_and, ◌==◌, ◌&&◌, ◌||◌, not, Bool, true, ok, ◌≡◌, refl,
  arith, ==_iff,
}
use artbox.Base.Bits.{bit_and_above, every_below, every_below→}
use artbox.PackElf.Inspect.{Decoded, classify}

-- The highest byte of a word passes the highest byte of a mask test that the word passes.
above :
    (word h l high low : ℕ)
    → l < 2 ^ 24
    → low < 2 ^ 24
    → (bit_and word (h * 2 ^ 24 + l) == high * 2 ^ 24 + low) ≡ true
    → (bit_and (word / 2 ^ 24) h == high) ≡ true
above word h l high low s t e =
    (==_iff _ _).1 (bit_and_above 24 word h l high low s t ((==_iff _ _).0 e))

-- What an accepted word may have in its highest byte.
abbrev allowed : ℕ → Bool
allowed b =
    b == 0xd4
    || b == 0xd5
    || bit_and b 0xff == 0xd2
    || bit_and b 0xff == 0x92
    || bit_and b 0xff == 0xaa
    || bit_and b 0xff == 0xf1
    || bit_and b 0xff == 0xeb
    || bit_and b 0x9f == 0x10
    || bit_and b 0xfc == 0x14
    || bit_and b 0xff == 0x54
    || bit_and b 0x7e == 0x34
    || bit_and b 0xff == 0xf9

module _ (size pc word : ℕ) (d : Decoded) (known : classify size pc word ≡ ok d) where
  classify-allowed : allowed (word / 2 ^ 24) ≡ true
  unfolding classify
  classify-allowed = ground (
    arith,
    above word 0xff 0x800000 0xd2 0x800000 (omega arith) (omega arith),
    above word 0xff 0x800000 0x92 0x800000 (omega arith) (omega arith),
    above word 0xff 0xe0ffe0 0xaa 0x0003e0 (omega arith) (omega arith),
    above word 0xff 0xc0001f 0xf1 0x00001f (omega arith) (omega arith),
    above word 0xff 0xe0fc1f 0xeb 0x00001f (omega arith) (omega arith),
    above word 0x9f 0 0x10 0 (omega arith) (omega arith),
    above word 0xfc 0 0x14 0 (omega arith) (omega arith),
    above word 0xff 0x10 0x54 0 (omega arith) (omega arith),
    above word 0x7e 0 0x34 0 (omega arith) (omega arith),
    above word 0xff 0xc00000 0xf9 0x400000 (omega arith) (omega arith),
    above word 0xff 0xc00000 0xf9 0 (omega arith) (omega arith),
  )

-- BL, branches to a register, and what uses the SIMD and floating-point registers: the data
-- processing and the loads and stores of that group.
abbrev excluded : ℕ → Bool
excluded b =
    b / 4 == 37
    || b / 2 == 107
    || b / 2 % 8 == 7
    || (b / 8 % 2 == 1 && b / 2 % 2 == 0 && b / 4 % 2 == 1)

excluded_table : every_below (λ b. not (allowed b && excluded b)) 256 ≡ true
unfolding every_below
excluded_table = refl

-- The group of a word by its encoding: bits 31 to 26, 31 to 25, and 28 to 25 with bit 26.
abbrev pub IsCallOrSimd : ℕ → Type 0
IsCallOrSimd word =
    (word / 2 ^ 26 ≡ 37)
    ⊎ (word / 2 ^ 25 ≡ 107)
    ⊎ (word / 2 ^ 25 % 8 ≡ 7)
    ⊎ ((word / 2 ^ 27 % 2 ≡ 1) × (word / 2 ^ 25 % 2 ≡ 0) × (word / 2 ^ 26 % 2 ≡ 1))

module _ (size pc word : ℕ) (d : Decoded) (fits : word < 2 ^ 32)
    (known : classify size pc word ≡ ok d) where
  -- A word of 32 bits that is classified is no BL, no branch to a register, no SIMD or
  -- floating-point data processing and no load or store of such a register.
  pub classify-not-IsCallOrSimd : ¬ (IsCallOrSimd word)
  classify-not-IsCallOrSimd bad = ground (
    arith,
    classify-allowed size pc word d known,
    every_below→ (λ b. not (allowed b && excluded b)) 256 excluded_table (word / 2 ^ 24)
        (omega arith),
    bad,
  )
