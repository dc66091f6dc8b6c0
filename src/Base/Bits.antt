-- ===== src/Base/Bits.antt =====
-- The bit operations at variables: one law for the lowest digit, from which the fields of a word
-- separate at every width.
use Prim.Native.Nat.{
  ℕ, zero, suc, ◌+◌, ◌-◌, ◌*◌, ◌/◌, ◌%◌, ◌^◌, ◌≤◌, ◌<◌, min, max, bit_and, bit_or, bit_xor, digits,
  bitwise, differ, bit_and-bitwise, bit_or-bitwise, bit_xor-bitwise,
}
use mathlib.Core.Path.{◌≡◌, refl, sym, ap, ◌∙◌}
use mathlib.Core.Logic.{◌⊎◌, inl, inr}
use mathlib.Core.Bool.{Bool, true, false}
use native.Mathlib.Nat.{pow-suc, one-le-pow, div-add-mod', mod-lt, mul-add-div_right, div-eq_of_lt}
use native.Mathlib.Omega.{arith}
use artbox.Base.Tests.{if◌then◌else◌}

-- One equation for the lowest digit of an operation.
abbrev StepLaw : (ℕ → ℕ → ℕ) → (ℕ → ℕ → ℕ) → Type 0
StepLaw op digit = (a b : ℕ) → op a b ≡ op (a / 2) (b / 2) * 2 + digit (a % 2) (b % 2)

-- `bitwise` recurs with a count of digits; more of them than the first number has change nothing.
module _ (z : ℕ → ℕ) (f : ℕ → ℕ → ℕ) where
  enough_digits :
      (a b more less : ℕ) → a ≤ less → a ≤ more → digits z f more a b ≡ digits z f less a b
  enough_digits zero b zero zero fits fits' = refl
  enough_digits zero b zero (suc less) fits fits' = refl
  enough_digits zero b (suc more) zero fits fits' = refl
  enough_digits zero b (suc more) (suc less) fits fits' = refl
  enough_digits (suc a) b more zero fits fits' = absurd (omega arith)
  enough_digits (suc a) b zero (suc less) fits fits' = absurd (omega arith)
  enough_digits (suc a) b (suc more) (suc less) fits fits' =
      ap (λ (rest : ℕ). rest * 2 + f (suc a % 2) (b % 2))
        (enough_digits (suc a / 2) (b / 2) more less (omega arith) (omega arith))

  bitwise_step : ((b : ℕ) → z b ≡ z (b / 2) * 2 + f 0 (b % 2)) → StepLaw (bitwise z f) f
  bitwise_step none_left zero b = none_left b
  bitwise_step none_left (suc a) b =
      ap (λ (rest : ℕ). rest * 2 + f (suc a % 2) (b % 2))
        (enough_digits (suc a / 2) (b / 2) a (suc a / 2) (omega arith) (omega arith))

bit_xor_step : StepLaw bit_xor differ
bit_xor_step a b = simp bit_xor-bitwise (bitwise_step (λ rest. rest) differ (λ c. omega arith) a b)

bit_or_step : StepLaw bit_or max
bit_or_step a b = simp bit_or-bitwise (bitwise_step (λ rest. rest) max (λ c. omega arith) a b)

bit_and_step : StepLaw bit_and min
bit_and_step a b = simp bit_and-bitwise (bitwise_step (λ rest. 0) min (λ c. omega arith) a b)

double : (q k : ℕ) → q * 2 ^ suc k ≡ 2 * (q * 2 ^ k)
double q k = omega (arith, ap (λ (t : ℕ). q * t) (pow-suc 2 k))

-- An operation with such a law works on the fields above and below any bit on their own.
module _ (op digit : ℕ → ℕ → ℕ) (step : StepLaw op digit) (base : op 0 0 ≡ 0) where
  pub op_fields :
      (k q r h l : ℕ)
      → r < 2 ^ k
      → l < 2 ^ k
      → op (q * 2 ^ k + r) (h * 2 ^ k + l) ≡ op q h * 2 ^ k + op r l
  op_fields zero q r h l p s =
      let er : r ≡ 0 = omega arith in
      let el : l ≡ 0 = omega arith in
      let eq : q * 2 ^ 0 + 0 ≡ q = omega arith in
      let eh : h * 2 ^ 0 + 0 ≡ h = omega arith in rw (er, el, eq, eh, base) (omega arith)
  op_fields (suc k) q r h l p s =
      let high : (q * 2 ^ suc k + r) / 2 ≡ q * 2 ^ k + r / 2 = omega (arith, double q k) in
      let low : (q * 2 ^ suc k + r) % 2 ≡ r % 2 = omega (arith, double q k) in
      let high' : (h * 2 ^ suc k + l) / 2 ≡ h * 2 ^ k + l / 2 = omega (arith, double h k) in
      let low' : (h * 2 ^ suc k + l) % 2 ≡ l % 2 = omega (arith, double h k) in
      let ih =
        op_fields k q (r / 2) h (l / 2) (omega (arith, pow-suc 2 k)) (omega (arith, pow-suc 2 k)) in
      step (q * 2 ^ suc k + r) (h * 2 ^ suc k + l)
      ∙ rw (high, low, high', low', ih, step r l, pow-suc 2 k) (omega arith)

pub bit_and_fields :
    (k q r h l : ℕ)
    → r < 2 ^ k
    → l < 2 ^ k
    → bit_and (q * 2 ^ k + r) (h * 2 ^ k + l) ≡ bit_and q h * 2 ^ k + bit_and r l
bit_and_fields = op_fields bit_and min bit_and_step refl

pub bit_or_fields :
    (k q r h l : ℕ)
    → r < 2 ^ k
    → l < 2 ^ k
    → bit_or (q * 2 ^ k + r) (h * 2 ^ k + l) ≡ bit_or q h * 2 ^ k + bit_or r l
bit_or_fields = op_fields bit_or max bit_or_step refl

pub bit_xor_fields :
    (k q r h l : ℕ)
    → r < 2 ^ k
    → l < 2 ^ k
    → bit_xor (q * 2 ^ k + r) (h * 2 ^ k + l) ≡ bit_xor q h * 2 ^ k + bit_xor r l
bit_xor_fields = op_fields bit_xor differ bit_xor_step refl

-- Operations with 0, by induction on a bound for the number.
module _ (op digit : ℕ → ℕ → ℕ) (step : StepLaw op digit) where
  op-zero_same : op 0 0 ≡ 0 → digit 0 0 ≡ 0 → digit 1 0 ≡ 1 → (n a : ℕ) → a ≤ n → op a 0 ≡ a
  op-zero_same base d0 d1 zero a h = let e : a ≡ 0 = omega arith in rw e base
  op-zero_same base d0 d1 (suc n) a h =
      let ih = op-zero_same base d0 d1 n (a / 2) (omega arith) in
      let bit : (a % 2 ≡ 0) ⊎ (a % 2 ≡ 1) = omega arith in
      elim bit [
        | inl e ↦ omega (arith, step a 0, ap (λ t. digit t 0) e, d0, ih)
        | inr e ↦ omega (arith, step a 0, ap (λ t. digit t 0) e, d1, ih)
      ]

pub bit_or-zero : (a : ℕ) → bit_or a 0 ≡ a
bit_or-zero a = op-zero_same bit_or max bit_or_step refl refl refl a a (omega arith)

pub bit_xor-zero : (a : ℕ) → bit_xor a 0 ≡ a
bit_xor-zero a = op-zero_same bit_xor differ bit_xor_step refl refl refl a a (omega arith)

pub zero-bit_or : (a : ℕ) → bit_or 0 a ≡ a
zero-bit_or a = simp bit_or-bitwise

pub zero-bit_and : (a : ℕ) → bit_and 0 a ≡ 0
zero-bit_and a = simp bit_and-bitwise

bit_and-zero_within : (n a : ℕ) → a ≤ n → bit_and a 0 ≡ 0
bit_and-zero_within zero a h = let e : a ≡ 0 = omega arith in rw e refl
bit_and-zero_within (suc n) a h =
    omega (arith, bit_and_step a 0, bit_and-zero_within n (a / 2) (omega arith))

pub bit_and-zero : (a : ℕ) → bit_and a 0 ≡ 0
bit_and-zero a = bit_and-zero_within a a (omega arith)

-- A mask of ones keeps what fits below it.
bit_and_full : (k r : ℕ) → r < 2 ^ k → bit_and r (2 ^ k - 1) ≡ r
bit_and_full zero r h = let e : r ≡ 0 = omega arith in rw e refl
bit_and_full (suc k) r h =
    let pow = pow-suc 2 k in
    let one : 1 ≤ 2 ^ k = one-le-pow k 2 (omega arith) in
    let half : (2 ^ suc k - 1) / 2 ≡ 2 ^ k - 1 = omega arith in
    let odd : (2 ^ suc k - 1) % 2 ≡ 1 = omega arith in
    let ih = bit_and_full k (r / 2) (omega arith) in
    bit_and_step r (2 ^ suc k - 1) ∙ rw (half, odd, ih) (omega arith)

-- `a & (2 ** k - 1)` is the remainder by 2 ** k.
pub bit_and_mask : (k a : ℕ) → bit_and a (2 ^ k - 1) ≡ a % 2 ^ k
bit_and_mask k a =
    let pos : 1 ≤ 2 ^ k = one-le-pow k 2 (omega arith) in
    let whole : a / 2 ^ k * 2 ^ k + a % 2 ^ k ≡ a = div-add-mod' a (2 ^ k) in
    let parts =
      bit_and_fields k (a / 2 ^ k) (a % 2 ^ k) 0 (2 ^ k - 1) (mod-lt a pos) (omega arith) in
    let none_above : 0 * 2 ^ k + (2 ^ k - 1) ≡ 2 ^ k - 1 = omega arith in
    ap (λ t. bit_and t (2 ^ k - 1)) (sym whole)
    ∙ ap (bit_and (a / 2 ^ k * 2 ^ k + a % 2 ^ k)) (sym none_above)
    ∙ parts
    ∙ rw (bit_and-zero (a / 2 ^ k), bit_and_full k (a % 2 ^ k) (mod-lt a pos)) (omega arith)

-- A mask splits at any bit: `a & (h << k | l)`.
pub bit_and_split :
    (k a h l : ℕ)
    → l < 2 ^ k
    → bit_and a (h * 2 ^ k + l) ≡ bit_and (a / 2 ^ k) h * 2 ^ k + bit_and (a % 2 ^ k) l
bit_and_split k a h l s =
    let pos : 1 ≤ 2 ^ k = one-le-pow k 2 (omega arith) in
    ap (λ t. bit_and t (h * 2 ^ k + l)) (sym (div-add-mod' a (2 ^ k)))
    ∙ bit_and_fields k (a / 2 ^ k) (a % 2 ^ k) h l (mod-lt a pos) s

-- `(q << k) | r` is a sum where r fits below.
pub bit_or_join : (k q r : ℕ) → r < 2 ^ k → bit_or (q * 2 ^ k) r ≡ q * 2 ^ k + r
bit_or_join k q r h =
    let pos : 1 ≤ 2 ^ k = one-le-pow k 2 (omega arith) in
    let left : q * 2 ^ k + 0 ≡ q * 2 ^ k = omega arith in
    let right : 0 * 2 ^ k + r ≡ r = omega arith in
    let parts = bit_or_fields k q 0 0 r pos h in
    let joined : bit_or (q * 2 ^ k) r ≡ bit_or q 0 * 2 ^ k + bit_or 0 r =
      rw (left, right) at parts in
    joined ∙ rw (bit_or-zero q, zero-bit_or r)

-- `v ^ (1 << k)` moves the upper half of the range of k + 1 bits down, and the lower half up.
pub bit_xor_low : (k v : ℕ) → v < 2 ^ k → bit_xor v (2 ^ k) ≡ v + 2 ^ k
bit_xor_low k v h =
    let pos : 1 ≤ 2 ^ k = one-le-pow k 2 (omega arith) in
    let left : 0 * 2 ^ k + v ≡ v = omega arith in
    let right : 1 * 2 ^ k + 0 ≡ 2 ^ k = omega arith in
    let parts = bit_xor_fields k 0 v 1 0 h pos in
    let joined : bit_xor v (2 ^ k) ≡ bit_xor 0 1 * 2 ^ k + bit_xor v 0 =
      rw (left, right) at parts in
    joined ∙ rw (bit_xor-zero v) (omega arith)

pub bit_xor_high : (k v : ℕ) → 2 ^ k ≤ v → v < 2 ^ suc k → bit_xor v (2 ^ k) ≡ v - 2 ^ k
bit_xor_high k v low h =
    let pos : 1 ≤ 2 ^ k = one-le-pow k 2 (omega arith) in
    let below : v - 2 ^ k < 2 ^ k = omega (arith, pow-suc 2 k) in
    let left : 1 * 2 ^ k + (v - 2 ^ k) ≡ v = omega arith in
    let right : 1 * 2 ^ k + 0 ≡ 2 ^ k = omega arith in
    let parts = bit_xor_fields k 1 (v - 2 ^ k) 1 0 below pos in
    let joined : bit_xor v (2 ^ k) ≡ bit_xor 1 1 * 2 ^ k + bit_xor (v - 2 ^ k) 0 =
      rw (left, right) at parts in
    joined ∙ rw (bit_xor-zero (v - 2 ^ k)) (omega arith)

-- A mask bounds the result.
pub bit_and-lt : (k a l : ℕ) → l < 2 ^ k → bit_and a l < 2 ^ k
bit_and-lt zero a l h = let e : l ≡ 0 = omega arith in rw (e, bit_and-zero a) (omega arith)
bit_and-lt (suc k) a l h =
    let half = bit_and-lt k (a / 2) (l / 2) (omega (arith, pow-suc 2 k)) in
    omega (arith, bit_and_step a l, pow-suc 2 k)

div-of_parts : (m q r : ℕ) → r < m → (q * m + r) / m ≡ q
div-of_parts m q r h =
    rw (mul-add-div_right {m = m} (omega arith) q r, div-eq_of_lt h) (omega arith)

-- A word that passes a mask test passes it in the bits above any position.
pub bit_and_above :
    (k a h l high low : ℕ)
    → l < 2 ^ k
    → low < 2 ^ k
    → bit_and a (h * 2 ^ k + l) ≡ high * 2 ^ k + low
    → bit_and (a / 2 ^ k) h ≡ high
bit_and_above k a h l high low s t e =
    let pos : 1 ≤ 2 ^ k = one-le-pow k 2 (omega arith) in
    let parts : bit_and (a / 2 ^ k) h * 2 ^ k + bit_and (a % 2 ^ k) l ≡ high * 2 ^ k + low =
      sym (bit_and_split k a h l s) ∙ e in
    let left : (bit_and (a / 2 ^ k) h * 2 ^ k + bit_and (a % 2 ^ k) l) / 2 ^ k
        ≡ bit_and (a / 2 ^ k) h =
      div-of_parts (2 ^ k) (bit_and (a / 2 ^ k) h) (bit_and (a % 2 ^ k) l)
        (bit_and-lt k (a % 2 ^ k) l s) in
    sym left ∙ ap (λ (v : ℕ). v / 2 ^ k) parts ∙ div-of_parts (2 ^ k) high low t

-- A test of every number of a small range, by evaluation.
unfoldable pub every_below : (ℕ → Bool) → ℕ → Bool
every_below test zero = true
every_below test (suc n) = if test n then every_below test n else false

pub every_below→ :
    (test : ℕ → Bool) (n : ℕ) → every_below test n ≡ true → (x : ℕ) → x < n → test x ≡ true
unfolding every_below
every_below→ test zero passed x below = absurd (omega arith)
every_below→ test (suc n) passed x below = ground (arith, every_below→ test n _ x)
