-- ===== src/PackElf/Uleb.antt =====
-- tools/pack_elf.py: `uleb`, the LEB128 code of a number, against its decoder.
use mathlib.Core.WellFounded.{Acc}
use mathlib.Core.Logic.{dite, dif_pos, dif_neg}
use native.Mathlib.Decide.{dec_le}
use native.Mathlib.Bridge.{le_prop}
use artbox.Base.{
  ℕ, ◌+◌, ◌-◌, ◌*◌, ◌/◌, ◌%◌, ◌^◌, ◌≤◌, ◌<◌, bit_and, bit_or, ◌≡◌, refl, List, [], ◌∷◌, ◌++◌, ltb,
  if◌then◌else◌, arith, ◌∙◌, ap, sym, Option, none, some,
}
use artbox.Base.Bits.{bit_and_mask, bit_or_fields, bit_or-zero}
use artbox.Base.Order.{lt_wf}

pub shift-lt : (value : ℕ) → 128 ≤ value → value / 2 ^ 7 < value
shift-lt value h = omega arith

-- The loop: `while value >= 128`.
unfoldable pub uleb_bytes : (value : ℕ) → Acc ◌<◌ value → List ℕ
uleb_bytes value (Acc.intro _ smaller) =
    dite (dec_le 128 value)
      (λ h.
        bit_or (bit_and value 127) 128
        ∷ uleb_bytes (value / 2 ^ 7) (smaller (value / 2 ^ 7) (shift-lt value h)))
      (λ _. value ∷ [])

unfoldable pub uleb : ℕ → List ℕ
unfolding uleb_bytes lt_wf dec_le
uleb value = uleb_bytes value (lt_wf.apply value)

-- The reader of the format: seven bits a byte, the lowest first, and a high bit while more follow.
pub unleb : List ℕ → Option (ℕ × List ℕ)
unleb [] = none
unleb (b ∷ rest) =
    let tail = unleb rest in
    if ltb b 128
    then some (b, rest)
    else elim tail [ none ↦ none | some (v, after) ↦ some (b - 128 + 128 * v, after) ]

-- Bit 7 of the low seven bits is clear, so `|` adds.
continued : (value : ℕ) → bit_or (bit_and value 127) 128 ≡ value % 128 + 128
continued value =
    let left : 0 * 2 ^ 7 + value % 128 ≡ value % 128 = omega arith in
    rw (bit_and_mask 7 value) (
      ap (λ t. bit_or t 128) (sym left)
      ∙ bit_or_fields 7 0 (value % 128) 1 0 (omega arith) (omega arith)
      ∙ rw (bit_or-zero (value % 128)) (omega arith))

unleb-more :
    (b v : ℕ) (xs rest : List ℕ)
    → 128 ≤ b
    → unleb xs ≡ some (v, rest)
    → unleb (b ∷ xs) ≡ some (b - 128 + 128 * v, rest)
unfolding unleb
unleb-more b v xs rest h e = rw e (ground arith)

unleb_last : (b : ℕ) (rest : List ℕ) → b < 128 → unleb (b ∷ rest) ≡ some (b, rest)
unfolding unleb
unleb_last b rest h = ground arith

unleb-uleb_bytes :
    (value : ℕ) (w : Acc ◌<◌ value) (rest : List ℕ)
    → unleb (uleb_bytes value w ++ rest) ≡ some (value, rest)
unfolding uleb_bytes
unleb-uleb_bytes value (Acc.intro _ smaller) rest = elim (dec_le 128 value) [
  | yes h ↦
      let low = value % 128 in
      let sum : low + 128 - 128 + 128 * (value / 2 ^ 7) ≡ value = omega arith in
      rw (dif_pos _ le_prop h, continued value)
        (unleb-more (low + 128) (value / 2 ^ 7)
            (uleb_bytes (value / 2 ^ 7) (smaller (value / 2 ^ 7) (shift-lt value h)) ++ rest) rest
            (omega arith)
            (unleb-uleb_bytes (value / 2 ^ 7) (smaller (value / 2 ^ 7) (shift-lt value h)) rest)
          ∙ rw sum refl)
  | no h ↦ rw (dif_neg _ h) (unleb_last value rest (omega arith))
]

-- Reading the LEB128 code of any number, with any bytes behind it, gives back the number and
-- leaves those bytes.
pub unleb-uleb : (value : ℕ) (rest : List ℕ) → unleb (uleb value ++ rest) ≡ some (value, rest)
unfolding uleb
unleb-uleb value rest = unleb-uleb_bytes value (lt_wf.apply value) rest
