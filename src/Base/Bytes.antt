-- ===== src/Base/Bytes.antt =====
-- Python's `bytes` as lists of numbers below 256, and the little-endian fields that `struct` reads
-- and writes.
use Prim.Native.Nat.{ℕ, zero, suc, ◌+◌, ◌-◌, ◌*◌, ◌/◌, ◌%◌, ◌^◌, ◌≤◌, ◌<◌}
use Prim.Native.String.{String}
use mathlib.Core.Path.{◌≡◌, refl, ap, ◌∙◌}
use mathlib.Core.Logic.{◌⊎◌, inl, inr}
use mathlib.Core.List.{List, [], ◌∷◌, ◌++◌}
use mathlib.Core.Bool.{◌&&◌}
use native.Mathlib.Nat.{pow-suc}
use native.Mathlib.Omega.{arith}
use artbox.Base.Tests.{ltb, leb, if◌then◌else◌, lt→ltb}
use artbox.Base.Lists.{
  length, get_or, overwrite, get_or-overwrite_inside, get_or-overwrite_outside, get_or-append_left,
  get_or-append_right, length-append,
}
use artbox.Base.Outcome.{Result, ok, err, ◌>>=◌}

abbrev pub byte_at : List ℕ → ℕ → ℕ
byte_at bytes i = get_or bytes i 0

abbrev pub IsBytes : List ℕ → Type 0
IsBytes bytes = (i : ℕ) → byte_at bytes i < 256

-- The little-endian number of n bytes from an offset on.
unfoldable pub le_at : ℕ → List ℕ → ℕ → ℕ
le_at zero bytes offset = 0
le_at (suc n) bytes offset = byte_at bytes offset + 256 * le_at n bytes (suc offset)

-- The n bytes of a number, the lowest first.
unfoldable pub to_le : ℕ → ℕ → List ℕ
to_le zero v = []
to_le (suc n) v = (v % 256) ∷ to_le n (v / 256)

abbrev pub struct_error : String
struct_error = "struct.error"

-- `struct.unpack_from` of one field at an offset that is not negative.
unfoldable pub unpack : ℕ → List ℕ → ℕ → Result ℕ
unpack n bytes offset =
    if leb (offset + n) (length bytes) then ok (le_at n bytes offset) else err struct_error

-- `struct.pack` of one field refuses what does not fit.
unfoldable pub pack : ℕ → ℕ → Result (List ℕ)
pack n v = if ltb v (256 ^ n) then ok (to_le n v) else err struct_error

-- `struct.pack_into` of one field.
unfoldable pub pack_into : ℕ → List ℕ → ℕ → ℕ → Result (List ℕ)
pack_into n bytes offset v =
    if leb (offset + n) (length bytes) && ltb v (256 ^ n)
    then ok (overwrite bytes offset (to_le n v))
    else err struct_error

-- `struct.pack` of a sequence of fields of one width.
unfoldable pub pack_all : ℕ → List ℕ → Result (List ℕ)
unfolding pack
pack_all n [] = ok []
pack_all n (v ∷ vs) = do bytes ← pack n v; rest ← pack_all n vs; ok (bytes ++ rest)

pub length-to_le : (n v : ℕ) → length (to_le n v) ≡ n
unfolding to_le
length-to_le zero v = refl
length-to_le (suc n) v = ap suc (length-to_le n (v / 256))

pub to_le-IsBytes : (n v : ℕ) → IsBytes (to_le n v)
unfolding to_le
to_le-IsBytes zero v i = omega arith
to_le-IsBytes (suc n) v zero = omega arith
to_le-IsBytes (suc n) v (suc i) = to_le-IsBytes n (v / 256) i

-- A field depends on its own bytes alone.
pub le_at_ext :
    (n : ℕ) (xs ys : List ℕ) (i j : ℕ)
    → ((k : ℕ) → k < n → byte_at xs (i + k) ≡ byte_at ys (j + k))
    → le_at n xs i ≡ le_at n ys j
unfolding le_at
le_at_ext zero xs ys i j h = refl
le_at_ext (suc n) xs ys i j h =
    let i0 : i + 0 ≡ i = omega arith in
    let j0 : j + 0 ≡ j = omega arith in
    let first : byte_at xs i ≡ byte_at ys j = rw (i0, j0) at (h 0 (omega arith)) in
    let rest = le_at_ext n xs ys (suc i) (suc j) (λ k p.
      let is : suc i + k ≡ i + suc k = omega arith in
      let js : suc j + k ≡ j + suc k = omega arith in rw (is, js) (h (suc k) (omega arith))) in
    omega (arith, first, rest)

pub le_at-lt : (n : ℕ) (bytes : List ℕ) (i : ℕ) → IsBytes bytes → le_at n bytes i < 256 ^ n
unfolding le_at
le_at-lt zero bytes i h = omega arith
le_at-lt (suc n) bytes i h = omega (arith, h i, le_at-lt n bytes (suc i) h, pow-suc 256 n)

le_at-cons : (n b : ℕ) (xs : List ℕ) (i : ℕ) → le_at n (b ∷ xs) (suc i) ≡ le_at n xs i
le_at-cons n b xs i =
    le_at_ext n (b ∷ xs) xs (suc i) i
      λ k p. let e : suc i + k ≡ suc (i + k) = omega arith in rw e refl

-- Reading back what was written gives the number.
pub le_at-to_le : (n v : ℕ) → v < 256 ^ n → le_at n (to_le n v) 0 ≡ v
unfolding le_at to_le
le_at-to_le zero v h = omega arith
le_at-to_le (suc n) v h =
    let fits : v / 256 < 256 ^ n = omega (arith, pow-suc 256 n) in
    omega (arith, le_at-cons n (v % 256) (to_le n (v / 256)) 0, le_at-to_le n (v / 256) fits)

pub le_at-overwrite_self :
    (n v : ℕ) (xs : List ℕ) (i : ℕ)
    → i + n ≤ length xs
    → v < 256 ^ n
    → le_at n (overwrite xs i (to_le n v)) i ≡ v
le_at-overwrite_self n v xs i room fits =
    le_at_ext n (overwrite xs i (to_le n v)) (to_le n v) i 0 (λ k p.
      let e : 0 + k ≡ k = omega arith in
      rw e (
        get_or-overwrite_inside xs i (to_le n v) k 0 (omega (arith, length-to_le n v))
          (omega arith)))
    ∙ le_at-to_le n v fits

pub le_at-overwrite_outside :
    (n : ℕ) (xs : List ℕ) (i : ℕ) (ys : List ℕ) (j : ℕ)
    → (j + n ≤ i) ⊎ (i + length ys ≤ j)
    → le_at n (overwrite xs i ys) j ≡ le_at n xs j
le_at-overwrite_outside n xs i ys j apart = le_at_ext n (overwrite xs i ys) xs j j λ k p.
    get_or-overwrite_outside xs i ys (j + k) 0
      (elim apart [ inl before ↦ inl (omega arith) | inr after ↦ inr (omega arith) ])

pub le_at-append_left :
    (n : ℕ) (xs ys : List ℕ) (i : ℕ) → i + n ≤ length xs → le_at n (xs ++ ys) i ≡ le_at n xs i
le_at-append_left n xs ys i h =
    le_at_ext n (xs ++ ys) xs i i λ k p. get_or-append_left xs ys (i + k) 0 (omega arith)

pub le_at-append_right :
    (n : ℕ) (xs ys : List ℕ) (i : ℕ) → le_at n (xs ++ ys) (length xs + i) ≡ le_at n ys i
le_at-append_right n xs ys i = le_at_ext n (xs ++ ys) ys (length xs + i) i λ k p.
    let e : length xs + i + k - length xs ≡ i + k = omega arith in
    rw (get_or-append_right xs ys (length xs + i + k) 0 (omega arith), e) refl

pub overwrite-IsBytes :
    (xs : List ℕ) (i : ℕ) (ys : List ℕ) → IsBytes xs → IsBytes ys → IsBytes (overwrite xs i ys)
unfolding overwrite
overwrite-IsBytes [] i ys hx hy k = hx k
overwrite-IsBytes (x ∷ xs) zero [] hx hy k = hx k
overwrite-IsBytes (x ∷ xs) zero (y ∷ ys) hx hy zero = hy 0
overwrite-IsBytes (x ∷ xs) zero (y ∷ ys) hx hy (suc k) =
    overwrite-IsBytes xs zero ys (λ j. hx (suc j)) (λ j. hy (suc j)) k
overwrite-IsBytes (x ∷ xs) (suc i) ys hx hy zero = hx 0
overwrite-IsBytes (x ∷ xs) (suc i) ys hx hy (suc k) =
    overwrite-IsBytes xs i ys (λ j. hx (suc j)) hy k

pub append-IsBytes : (xs ys : List ℕ) → IsBytes xs → IsBytes ys → IsBytes (xs ++ ys)
append-IsBytes [] ys hx hy k = hy k
append-IsBytes (x ∷ xs) ys hx hy zero = hx 0
append-IsBytes (x ∷ xs) ys hx hy (suc k) = append-IsBytes xs ys (λ j. hx (suc j)) hy k

-- Fields that all fit are packed, one behind the other.
abbrev pub AllBelow : ℕ → List ℕ → Type 0
AllBelow m [] = Unit {0}
AllBelow m (v ∷ vs) = (v < m) × AllBelow m vs

unfoldable pub fields_le : ℕ → List ℕ → List ℕ
fields_le n [] = []
fields_le n (v ∷ vs) = to_le n v ++ fields_le n vs

pub pack_all_fits :
    (n : ℕ) (vs : List ℕ) → AllBelow (256 ^ n) vs → pack_all n vs ≡ ok (fields_le n vs)
unfolding pack_all fields_le
pack_all_fits n [] h = refl
pack_all_fits n (v ∷ vs) h = rw (lt→ltb v (256 ^ n) h.0, pack_all_fits n vs h.1) refl

pub length-fields_le : (n : ℕ) (vs : List ℕ) → length (fields_le n vs) ≡ n * length vs
unfolding fields_le
length-fields_le n [] = omega arith
length-fields_le n (v ∷ vs) =
    length-append (to_le n v) (fields_le n vs)
    ∙ omega (arith, length-to_le n v, length-fields_le n vs)

pub fields_le-IsBytes : (n : ℕ) (vs : List ℕ) → IsBytes (fields_le n vs)
unfolding fields_le
fields_le-IsBytes n [] i = omega arith
fields_le-IsBytes n (v ∷ vs) i =
    append-IsBytes (to_le n v) (fields_le n vs) (to_le-IsBytes n v) (fields_le-IsBytes n vs) i

-- The field number k of a packed sequence.
pub le_at-fields_le :
    (n : ℕ) (vs : List ℕ) (k : ℕ)
    → k < length vs
    → AllBelow (256 ^ n) vs
    → le_at n (fields_le n vs) (n * k) ≡ byte_at vs k
unfolding fields_le
le_at-fields_le n [] k h all = absurd (omega arith)
le_at-fields_le n (v ∷ vs) zero h all =
    let e : n * 0 ≡ 0 = omega arith in
    rw e (
      le_at-append_left n (to_le n v) (fields_le n vs) 0 (omega (arith, length-to_le n v))
      ∙ le_at-to_le n v all.0)
le_at-fields_le n (v ∷ vs) (suc k) h all =
    let e : n * suc k ≡ length (to_le n v) + n * k = omega (arith, length-to_le n v) in
    rw e (
      le_at-append_right n (to_le n v) (fields_le n vs) (n * k)
      ∙ le_at-fields_le n vs k (omega arith) all.1)
