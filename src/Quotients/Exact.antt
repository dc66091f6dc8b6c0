-- ===== src/Quotients/Exact.antt =====
-- scripts/libcore_builtins.py: that every case is a division of 128-bit numbers, and its row 64-bit words.
use artbox.Base.{
  ℕ, zero, suc, ◌+◌, ◌*◌, ◌^◌, ◌/◌, ◌%◌, ◌==◌, ◌<◌, List, [], ◌∷◌, ◌++◌, length, ◌≡◌, ◌⊎◌, refl,
  arith, inl, inr, Bool-cases,
}
use native.Mathlib.Nat.{div-add-mod', mod-lt, div-le_self, div-lt_iff_lt-mul}
use artbox.Paths.Laws.{Every}
use artbox.Quotients.{
  quotient_limit, dividends, divisors, Pairs, with_each, all_pairs, next_state, or_one, drawn_pairs,
  test_pairs, DivisionCase, division_of, cases_of, row_of,
}

-- Both are 128-bit numbers, and the divisor is not 0.
abbrev IsPair : ℕ × ℕ → Type 0
IsPair p = (p.0 < quotient_limit) × (0 < p.1) × (p.1 < quotient_limit)

next_state-bound : (state : ℕ) → next_state state < quotient_limit
unfolding next_state
next_state-bound state =
    mod-lt (state * 6364136223846793005 + 1442695040888963407) {m = quotient_limit} (omega arith)

or_one-bound :
    (value : ℕ) → value < quotient_limit → (0 < or_one value) × (or_one value < quotient_limit)
or_one-bound value small = elim (Bool-cases (value == 0)) [
  | inl none ↦ rw none (omega arith, omega arith)
  | inr some_bit ↦ rw some_bit (grind arith, small)
]

drawn_pairs-IsPair : (rounds i state : ℕ) → Every IsPair (drawn_pairs rounds i state)
unfolding drawn_pairs
drawn_pairs-IsPair zero i state = tt
drawn_pairs-IsPair (suc rounds) i state =
    let n = next_state state in
    let after = next_state n in
    let least = div-le_self after (2 ^ (i % 96)) in
    let small = next_state-bound n in
    let (positive, bounded) = or_one-bound (after / 2 ^ (i % 96)) (omega (arith, least, small)) in
    ((next_state-bound state, positive, bounded), drawn_pairs-IsPair rounds (suc i) after)

append-Every : (ps qs : Pairs) → Every IsPair ps → Every IsPair qs → Every IsPair (ps ++ qs)
append-Every [] qs first second = second
append-Every (p ∷ ps) qs first second = (first.0, append-Every ps qs first.1 second)

with_each-IsPair :
    (n : ℕ) (ds : List ℕ)
    → n < quotient_limit
    → Every (λ d. (0 < d) × (d < quotient_limit)) ds
    → Every IsPair (with_each n ds)
unfolding with_each
with_each-IsPair n [] small all = tt
with_each-IsPair n (d ∷ ds) small all =
    ((small, all.0.0, all.0.1), with_each-IsPair n ds small all.1)

all_pairs-IsPair :
    (ns ds : List ℕ)
    → Every (λ n. n < quotient_limit) ns
    → Every (λ d. (0 < d) × (d < quotient_limit)) ds
    → Every IsPair (all_pairs ns ds)
unfolding all_pairs
all_pairs-IsPair [] ds small all = tt
all_pairs-IsPair (n ∷ ns) ds small all =
    append-Every (with_each n ds) (all_pairs ns ds) (with_each-IsPair n ds small.0 all)
      (all_pairs-IsPair ns ds small.1 all)

small_dividends : Every (λ n. n < quotient_limit) dividends
small_dividends = (
  omega arith,
  (
    omega arith,
    (
      omega arith,
      (
        omega arith,
        (
          omega arith,
          (omega arith, (omega arith, (omega arith, (omega arith, (omega arith, tt))))),
        ),
      ),
    ),
  ),
)

small_divisors : Every (λ d. (0 < d) × (d < quotient_limit)) divisors
small_divisors = (
  (omega arith, omega arith),
  (
    (omega arith, omega arith),
    (
      (omega arith, omega arith),
      (
        (omega arith, omega arith),
        (
          (omega arith, omega arith),
          (
            (omega arith, omega arith),
            (
              (omega arith, omega arith),
              (
                (omega arith, omega arith),
                ((omega arith, omega arith), ((omega arith, omega arith), tt)),
              ),
            ),
          ),
        ),
      ),
    ),
  ),
)

test_pairs-IsPair : Every IsPair test_pairs
unfolding test_pairs
test_pairs-IsPair =
    append-Every (all_pairs dividends divisors)
      (drawn_pairs 128 0 0x123456789abcdef0123456789abcdef)
      (all_pairs-IsPair dividends divisors small_dividends small_divisors)
      (drawn_pairs-IsPair 128 0 0x123456789abcdef0123456789abcdef)

-- The two words of a 128-bit number, and the number that they make.
abbrev pub AreHalves : ℕ → Type 0
AreHalves value =
    (value / 2 ^ 64 < 2 ^ 64)
    × (value % 2 ^ 64 < 2 ^ 64)
    × (value / 2 ^ 64 * 2 ^ 64 + value % 2 ^ 64 ≡ value)

halves-AreHalves : (value : ℕ) → value < quotient_limit → AreHalves value
halves-AreHalves value small = (
  (div-lt_iff_lt-mul {k = 2 ^ 64} {x = value} {y = 2 ^ 64} (omega arith)).1 small,
  mod-lt value {m = 2 ^ 64} (omega arith),
  div-add-mod' value (2 ^ 64),
)

-- A division of 128-bit numbers with its quotient and remainder, and the row of its words.
pub record IsExact (c : DivisionCase) : Type 0 where
  pub divided : c.q * c.d + c.r ≡ c.n
  pub below : c.r < c.d
  pub row :
      row_of c
      ≡ (c.n / 2 ^ 64)
        ∷ (c.n % 2 ^ 64)
        ∷ (c.d / 2 ^ 64)
        ∷ (c.d % 2 ^ 64)
        ∷ (c.q / 2 ^ 64)
        ∷ (c.q % 2 ^ 64)
        ∷ (c.r / 2 ^ 64)
        ∷ (c.r % 2 ^ 64)
        ∷ []
  pub words : AreHalves c.n × AreHalves c.d × AreHalves c.q × AreHalves c.r

division_of-IsExact : (p : ℕ × ℕ) → IsPair p → IsExact (division_of p)
unfolding row_of
division_of-IsExact p (small, positive, bounded) =
    let below = mod-lt p.0 {m = p.1} positive in
    let least = div-le_self p.0 p.1 in
    record {
      divided = div-add-mod' p.0 p.1;
      below = below;
      row = refl;
      words = (
        halves-AreHalves p.0 small,
        halves-AreHalves p.1 bounded,
        halves-AreHalves (p.0 / p.1) (omega (arith, least, small)),
        halves-AreHalves (p.0 % p.1) (omega (arith, below, bounded)),
      );
    }

cases_of-IsExact : (ps : Pairs) → Every IsPair ps → Every IsExact (cases_of ps)
unfolding cases_of
cases_of-IsExact [] all = tt
cases_of-IsExact (p ∷ ps) all = (division_of-IsExact p all.0, cases_of-IsExact ps all.1)

-- A number is one of a list.
abbrev IsIn : ℕ → List ℕ → Type 0
IsIn n [] = ⊥
IsIn n (x ∷ xs) = (x ≡ n) ⊎ IsIn n xs

Every-IsIn :
    (P : ℕ → Type 0) (all xs : List ℕ)
    → ((n : ℕ) → IsIn n xs → IsIn n all)
    → ((n : ℕ) → IsIn n all → P n)
    → Every P xs
Every-IsIn P all [] within holds = tt
Every-IsIn P all (x ∷ xs) within holds =
    (holds x (within x (inl refl)), Every-IsIn P all xs (λ n here. within n (inr here)) holds)

-- One of the cases divides these two numbers.
abbrev pub HasCase : ℕ → ℕ → List DivisionCase → Type 0
HasCase n d [] = ⊥
HasCase n d (c ∷ cs) = ((c.n ≡ n) × (c.d ≡ d)) ⊎ HasCase n d cs

module _ (n d : ℕ) where
  HasCase-left : (ps qs : Pairs) → HasCase n d (cases_of ps) → HasCase n d (cases_of (ps ++ qs))
  unfolding cases_of
  HasCase-left [] qs h = absurd h
  HasCase-left (p ∷ ps) qs (inl here) = inl here
  HasCase-left (p ∷ ps) qs (inr later) = inr (HasCase-left ps qs later)

  HasCase-right : (ps qs : Pairs) → HasCase n d (cases_of qs) → HasCase n d (cases_of (ps ++ qs))
  unfolding cases_of
  HasCase-right [] qs h = h
  HasCase-right (p ∷ ps) qs h = inr (HasCase-right ps qs h)

  with_each-HasCase : (ds : List ℕ) → IsIn d ds → HasCase n d (cases_of (with_each n ds))
  unfolding cases_of with_each
  with_each-HasCase [] h = absurd h
  with_each-HasCase (x ∷ ds) (inl here) = inl (refl, here)
  with_each-HasCase (x ∷ ds) (inr later) = inr (with_each-HasCase ds later)

  all_pairs-HasCase :
      (ns ds : List ℕ) → IsIn n ns → IsIn d ds → HasCase n d (cases_of (all_pairs ns ds))
  unfolding all_pairs
  all_pairs-HasCase [] ds h k = absurd h
  all_pairs-HasCase (x ∷ ns) ds (inl here) k =
      rw here (HasCase-left (with_each n ds) (all_pairs ns ds) (with_each-HasCase ds k))
  all_pairs-HasCase (x ∷ ns) ds (inr later) k =
      HasCase-right (with_each x ds) (all_pairs ns ds) (all_pairs-HasCase ns ds later k)

products : Every (λ n. Every (λ d. HasCase n d (cases_of test_pairs)) divisors) dividends
unfolding test_pairs
products =
    let drawn = drawn_pairs 128 0 0x123456789abcdef0123456789abcdef in
    Every-IsIn (λ n. Every (λ d. HasCase n d (cases_of test_pairs)) divisors) dividends dividends
      (λ n h. h)
      λ n at_n.
        Every-IsIn (λ d. HasCase n d (cases_of test_pairs)) divisors divisors (λ d h. h)
          λ d at_d.
            HasCase-left n d (all_pairs dividends divisors) drawn
              (all_pairs-HasCase n d dividends divisors at_n at_d)

counted : length (cases_of test_pairs) ≡ 228
unfolding test_pairs all_pairs with_each drawn_pairs cases_of next_state
counted = refl

-- Every case of 128-bit division is exact: the quotient times the divisor and the remainder are
-- the dividend, and the remainder is below the divisor. Its row is the upper and the lower 64
-- bits of the dividend, of the divisor, of the quotient and of the remainder, in this order, as
-- words below 2 ** 64 that make the number. There are 228 cases, and every dividend of the
-- fixed list is divided by every divisor of the fixed list in one of them.
pub test_pairs-IsExact :
    Every IsExact (cases_of test_pairs)
    × (length (cases_of test_pairs) ≡ 228)
    × Every (λ n. Every (λ d. HasCase n d (cases_of test_pairs)) divisors) dividends
test_pairs-IsExact = (cases_of-IsExact test_pairs test_pairs-IsPair, counted, products)
