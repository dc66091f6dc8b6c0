-- ===== src/PackElf/Numbers.antt =====
-- tools/pack_elf.py: `PAGE`, `LIMIT`, `align`, `signed` and `uleb`.
use native.Mathlib.Nat.{pow-suc, one-le-pow, mod-lt, div-add-mod, mul-mod_right}
use artbox.Base.{
  ℕ, zero, suc, ◌+◌, ◌-◌, ◌*◌, ◌/◌, ◌%◌, ◌^◌, ◌≤◌, ◌<◌, bit_and, bit_xor, ◌≡◌, refl, ltb,
  if◌then◌else◌, arith, ◌∙◌, ap, Bool-cases, inl, inr,
}
use artbox.Base.Int.{ℤ, pos, negsuc, sub_ℕ}
use artbox.Base.Bits.{bit_and_mask, bit_xor_low, bit_xor_high}

abbrev pub page : ℕ
page = 16384

abbrev pub limit : ℕ
limit = 2 * 1024 * 1024

-- `x & -alignment`: what `alignment - 1` masks is cleared.
unfoldable pub and_neg : ℕ → ℕ → ℕ
and_neg x zero = 0
and_neg x (suc mask) = x - bit_and x mask

unfoldable pub align : ℕ → ℕ → ℕ
unfolding and_neg
align value alignment = and_neg (value + alignment - 1) alignment

unfoldable pub signed : ℕ → ℕ → ℤ
signed value bits = sub_ℕ (bit_xor value (2 ^ (bits - 1))) (2 ^ (bits - 1))

and_neg_power : (k x : ℕ) → and_neg x (2 ^ k) ≡ x - x % 2 ^ k
and_neg_power k x =
    let positive : 1 ≤ 2 ^ k = one-le-pow k 2 (omega arith) in
    let e : 2 ^ k ≡ suc (2 ^ k - 1) = omega arith in
    ap (and_neg x) e ∙ unfold and_neg in rw (bit_and_mask k x) refl

-- For a power of two `align` gives the least multiple of it that is not below the value.
pub align_lem :
    (k value : ℕ)
    → (align value (2 ^ k) % 2 ^ k ≡ 0)
      × (value ≤ align value (2 ^ k))
      × (align value (2 ^ k) < value + 2 ^ k)
unfolding align
align_lem k value =
    let x = value + 2 ^ k - 1 in
    let positive : 1 ≤ 2 ^ k = one-le-pow k 2 (omega arith) in
    let whole : x - x % 2 ^ k ≡ 2 ^ k * (x / 2 ^ k) = omega (arith, div-add-mod x (2 ^ k)) in
    let below = mod-lt x positive in
    rw (and_neg_power k x) (rw whole (mul-mod_right (2 ^ k) (x / 2 ^ k)), omega arith, omega arith)

-- On k + 1 bits `signed` reads two's complement: a number below 2 ** k is itself, and from
-- there on 2 ** (k + 1) is subtracted.
pub signed_lem :
    (k v : ℕ)
    → v < 2 ^ suc k
    → signed v (suc k) ≡ (if ltb v (2 ^ k) then pos v else negsuc (2 ^ suc k - v - 1))
unfolding signed
signed_lem k v h =
    let e : suc k - 1 ≡ k = omega arith in
    elim (Bool-cases (ltb v (2 ^ k))) [
      | inl low ↦ rw (e, low, bit_xor_low k v (ground arith)) (ground arith)
      | inr high ↦ rw (e, high, bit_xor_high k v (ground arith) h) (ground (arith, pow-suc 2 k))
    ]
