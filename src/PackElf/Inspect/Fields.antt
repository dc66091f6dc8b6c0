-- ===== src/PackElf/Inspect/Fields.antt =====
-- tools/pack_elf.py: the mask tests and the targets of `inspect_text` by the fields of the A64 encoding.
use native.Mathlib.Nat.{pow-suc}
use artbox.Base.{
  ◌⊎◌, inl, inr, ℕ, suc, ◌+◌, ◌-◌, ◌*◌, ◌/◌, ◌%◌, ◌^◌, ◌≤◌, ◌<◌, bit_and, ltb, ◌==◌, ◌||◌, true,
  false, [], ◌∷◌, ◌≡◌, ◌≢◌, sym, ap, ◌∙◌, arith, ==_iff, Bool-cases,
}
use artbox.Base.Int.{pos, ◌+ℤ◌, scale}
use artbox.Base.Bits.{bit_and_above, bit_and_mask, bit_and_split, bit_or_join}
use artbox.PackElf.Numbers.{signed, signed_lem}
use artbox.PackElf.Branch.{branch_target}
use artbox.PackElf.Inspect.{
  register_at, adr_immediate, adr_target, short_target, within, is_reserved, any_reserved,
}

-- Bits of a word, from a place on.
abbrev pub field : ℕ → ℕ → ℕ → ℕ
field word low width = word / 2 ^ low % 2 ^ width

-- The register is not one of the host's or the bridge's.
abbrev pub IsFree : ℕ → Type 0
IsFree r = (r ≢ 18) × (r ≢ 27) × (r ≢ 28)

-- A two's complement displacement in units leads from a place to an offset below a bound.
abbrev pub Lands : ℕ → ℕ → ℕ → ℕ → ℕ → Type 0
Lands half unit value pc bound =
    ((value < half) × (pc + unit * value < bound))
    ⊎ ((half ≤ value)
        × (unit * (2 * half) ≤ pc + unit * value)
        × (pc + unit * value < bound + unit * (2 * half)))

-- A mask test on a run of bits and on the bits below it.
pub mask_fields :
    (k w a l high low : ℕ)
    → l < 2 ^ k
    → low < 2 ^ k
    → bit_and a ((2 ^ w - 1) * 2 ^ k + l) ≡ high * 2 ^ k + low
    → (field a k w ≡ high) × (bit_and (a % 2 ^ k) l ≡ low)
mask_fields k w a l high low s t e =
    let above = bit_and_above k a (2 ^ w - 1) l high low s t e in
    let both : high * 2 ^ k + bit_and (a % 2 ^ k) l ≡ high * 2 ^ k + low =
      ap (λ (h : ℕ). h * 2 ^ k + bit_and (a % 2 ^ k) l) (sym above)
      ∙ sym (bit_and_split k a (2 ^ w - 1) l s)
      ∙ e in
    (sym (bit_and_mask w (a / 2 ^ k)) ∙ above, omega (arith, both))

pub is_reserved-IsFree : (r : ℕ) → is_reserved r ≡ false → IsFree r
is_reserved-IsFree r h = ((λ e. ground arith), (λ e. ground arith), λ e. ground arith)

-- Both register fields of a list of two.
pub two-IsFree : (r s : ℕ) → any_reserved (r ∷ s ∷ []) ≡ false → IsFree r × IsFree s
two-IsFree r s h = (is_reserved-IsFree r (ground arith), is_reserved-IsFree s (ground arith))

module _ (pc bound : ℕ) where
  words-Lands :
      (k v : ℕ)
      → v < 2 ^ suc k
      → within (pos pc +ℤ scale (signed v (suc k)) 4) bound ≡ true
      → Lands (2 ^ k) 4 v pc bound
  unfolding scale ◌+ℤ◌
  words-Lands k v small h =
      let power = pow-suc 2 k in
      elim (Bool-cases (ltb v (2 ^ k))) [
        | inl low ↦ inl (ground (arith, rw (signed_lem k v small, low) at h))
        | inr high ↦ inr (ground (arith, power, small, high, rw (signed_lem k v small, high) at h))
      ]

  bytes-Lands :
      (k v : ℕ)
      → v < 2 ^ suc k
      → within (pos pc +ℤ signed v (suc k)) bound ≡ true
      → Lands (2 ^ k) 1 v pc bound
  unfolding ◌+ℤ◌
  bytes-Lands k v small h =
      let power = pow-suc 2 k in
      elim (Bool-cases (ltb v (2 ^ k))) [
        | inl low ↦ inl (ground (arith, rw (signed_lem k v small, low) at h))
        | inr high ↦ inr (ground (arith, power, small, high, rw (signed_lem k v small, high) at h))
      ]

  pub branch_target-Lands :
      (word : ℕ)
      → within (branch_target pc word) bound ≡ true
      → Lands (2 ^ 25) 4 (field word 0 26) pc bound
  unfolding branch_target
  branch_target-Lands word h =
      let e : bit_and word 0x3ffffff ≡ field word 0 26 = omega (arith, bit_and_mask 26 word) in
      words-Lands 25 (field word 0 26) (omega arith) (rw e at h)

  pub short_target-Lands :
      (word : ℕ)
      → within (short_target pc word) bound ≡ true
      → Lands (2 ^ 18) 4 (field word 5 19) pc bound
  unfolding short_target
  short_target-Lands word h =
      let e : bit_and (word / 2 ^ 5) 0x7ffff ≡ field word 5 19 = bit_and_mask 19 (word / 2 ^ 5) in
      words-Lands 18 (field word 5 19) (omega arith) (rw e at h)

  pub adr_target-Lands :
      (word : ℕ)
      → within (adr_target pc word) bound ≡ true
      → Lands (2 ^ 20) 1 (field word 5 19 * 4 + field word 29 2) pc bound
  unfolding adr_target adr_immediate
  adr_target-Lands word h =
      let e : bit_and (word / 2 ^ 5) 0x7ffff ≡ field word 5 19 = bit_and_mask 19 (word / 2 ^ 5) in
      let e' : bit_and (word / 2 ^ 29) 3 ≡ field word 29 2 = bit_and_mask 2 (word / 2 ^ 29) in
      let joined = bit_or_join 2 (field word 5 19) (field word 29 2) (omega arith) in
      bytes-Lands 20 (field word 5 19 * 4 + field word 29 2) (omega arith) (rw (e, e', joined) at h)

module _ (word : ℕ) where
  pub move_fields :
      (bit_and word 0xff800000 == 0xd2800000 || bit_and word 0xff800000 == 0x92800000) ≡ true
      → (field word 23 9 ≡ 0x1a5) ⊎ (field word 23 9 ≡ 0x125)
  move_fields t = elim (Bool-cases (bit_and word 0xff800000 == 0xd2800000)) [
    | inl hit ↦
        inl (mask_fields 23 9 word 0 0x1a5 0 (omega arith) (omega arith) ((==_iff _ _).0 hit)).0
    | inr miss ↦
        inr
          (mask_fields 23 9 word 0 0x125 0 (omega arith) (omega arith)
            ((==_iff _ _).0 (rw miss at t))).0
  ]

  pub transfer_fields :
      (bit_and word 0xffc00000 == 0xf9400000 || bit_and word 0xffc00000 == 0xf9000000) ≡ true
      → (field word 22 10 ≡ 0x3e5) ⊎ (field word 22 10 ≡ 0x3e4)
  transfer_fields t = elim (Bool-cases (bit_and word 0xffc00000 == 0xf9400000)) [
    | inl hit ↦
        inl (mask_fields 22 10 word 0 0x3e5 0 (omega arith) (omega arith) ((==_iff _ _).0 hit)).0
    | inr miss ↦
        inr
          (mask_fields 22 10 word 0 0x3e4 0 (omega arith) (omega arith)
            ((==_iff _ _).0 (rw miss at t))).0
  ]

  pub register_fields :
      bit_and word 0xffe0ffe0 ≡ 0xaa0003e0 → (field word 21 11 ≡ 0x550) × (field word 5 11 ≡ 0x1f)
  register_fields t =
      let (high, low) = mask_fields 21 11 word 0xffe0 0x550 0x3e0 (omega arith) (omega arith) t in
      let (middle, _) = mask_fields 5 11 (word % 2 ^ 21) 0 0x1f 0 (omega arith) (omega arith) low in
      (high, omega (arith, middle))

  pub immediate_fields :
      bit_and word 0xffc0001f ≡ 0xf100001f → (field word 22 10 ≡ 0x3c4) × (field word 0 5 ≡ 31)
  immediate_fields t =
      let (high, low) = mask_fields 22 10 word 0x1f 0x3c4 0x1f (omega arith) (omega arith) t in
      (high, omega (arith, low, bit_and_mask 5 (word % 2 ^ 22)))

  pub compare_fields :
      bit_and word 0xffe0fc1f ≡ 0xeb00001f
      → (field word 21 11 ≡ 0x758) × (field word 10 6 ≡ 0) × (field word 0 5 ≡ 31)
  compare_fields t =
      let (high, below) = mask_fields 21 11 word 0xfc1f 0x758 0x1f (omega arith) (omega arith) t in
      let (middle, low) =
        mask_fields 10 6 (word % 2 ^ 21) 0x1f 0 0x1f (omega arith) (omega arith) below in
      (high, omega (arith, middle), omega (arith, low, bit_and_mask 5 (word % 2 ^ 21 % 2 ^ 10)))

  pub address_fields :
      bit_and word 0x9f000000 ≡ 0x10000000 → (field word 31 1 ≡ 0) × (field word 24 5 ≡ 16)
  address_fields t =
      let (high, below) =
        mask_fields 31 1 word 0x1f000000 0 0x10000000 (omega arith) (omega arith) t in
      let (middle, _) = mask_fields 24 5 (word % 2 ^ 31) 0 16 0 (omega arith) (omega arith) below in
      (high, omega (arith, middle))

  pub conditional_fields :
      bit_and word 0xff000010 ≡ 0x54000000 → (field word 24 8 ≡ 0x54) × (field word 4 1 ≡ 0)
  conditional_fields t =
      let (high, below) = mask_fields 24 8 word 0x10 0x54 0 (omega arith) (omega arith) t in
      let (middle, _) = mask_fields 4 1 (word % 2 ^ 24) 0 0 0 (omega arith) (omega arith) below in
      (high, omega (arith, middle))

  test_register : (k : ℕ) → bit_and (word / 2 ^ k) 31 ≡ field word k 5
  test_register k = bit_and_mask 5 (word / 2 ^ k)

  low_register : bit_and word 31 ≡ field word 0 5
  low_register = omega (arith, bit_and_mask 5 word)

  pub low-IsFree : any_reserved (bit_and word 31 ∷ []) ≡ false → IsFree (field word 0 5)
  low-IsFree h = is_reserved-IsFree (field word 0 5) (ground (arith, rw low_register at h))

  pub at-IsFree : (k : ℕ) → any_reserved (register_at word k ∷ []) ≡ false → IsFree (field word k 5)
  at-IsFree k h = is_reserved-IsFree (field word k 5) (ground (arith, rw (test_register k) at h))

  pub low_and-IsFree :
      (k : ℕ)
      → any_reserved (bit_and word 31 ∷ register_at word k ∷ []) ≡ false
      → IsFree (field word 0 5) × IsFree (field word k 5)
  low_and-IsFree k h =
      two-IsFree (field word 0 5) (field word k 5) (rw (low_register, test_register k) at h)

  pub both-IsFree :
      (j k : ℕ)
      → any_reserved (register_at word j ∷ register_at word k ∷ []) ≡ false
      → IsFree (field word j 5) × IsFree (field word k 5)
  both-IsFree j k h =
      two-IsFree (field word j 5) (field word k 5) (rw (test_register j, test_register k) at h)
