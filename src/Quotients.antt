-- ===== src/Quotients.antt =====
-- scripts/libcore_builtins.py: the cases of 128-bit division that `prepare` writes for the pinned runtime
-- members, with the results of Python's `divmod`.
pub mod Exact
mod Tests
use artbox.Base.{
  ℕ, zero, suc, ◌+◌, ◌-◌, ◌*◌, ◌^◌, ◌/◌, ◌%◌, ◌==◌, if◌then◌else◌, List, [], ◌∷◌, ◌++◌,
}

-- `mask` is one less.
abbrev pub quotient_limit : ℕ
quotient_limit = 2 ^ 128

abbrev pub dividends : List ℕ
dividends =
    0
    ∷ 1
    ∷ 2
    ∷ (2 ^ 32 - 1)
    ∷ (2 ^ 64 - 1)
    ∷ (2 ^ 64)
    ∷ (2 ^ 64 + 1)
    ∷ (2 ^ 127 - 1)
    ∷ (2 ^ 127)
    ∷ (2 ^ 128 - 1)
    ∷ []

abbrev pub divisors : List ℕ
divisors =
    1
    ∷ 2
    ∷ 3
    ∷ (2 ^ 32 - 1)
    ∷ (2 ^ 32 + 1)
    ∷ (2 ^ 64 - 1)
    ∷ (2 ^ 64)
    ∷ (2 ^ 64 + 1)
    ∷ (2 ^ 127)
    ∷ (2 ^ 128 - 1)
    ∷ []

abbrev pub Pairs : Type 0
Pairs = List (ℕ × ℕ)

unfoldable pub with_each : ℕ → List ℕ → Pairs
with_each n [] = []
with_each n (d ∷ ds) = (n, d) ∷ with_each n ds

-- `[(n, d) for n in dividends for d in divisors]`
unfoldable pub all_pairs : List ℕ → List ℕ → Pairs
all_pairs [] ds = []
all_pairs (n ∷ ns) ds = with_each n ds ++ all_pairs ns ds

-- A step of `state`, where `& mask` is the remainder.
unfoldable pub next_state : ℕ → ℕ
next_state state = (state * 6364136223846793005 + 1442695040888963407) % quotient_limit

-- `value or 1`
abbrev pub or_one : ℕ → ℕ
or_one value = if value == 0 then 1 else value

-- `for i in range(128)` with the rounds that are left.
unfoldable pub drawn_pairs : ℕ → ℕ → ℕ → Pairs
drawn_pairs zero i state = []
drawn_pairs (suc rounds) i state =
    let n = next_state state in
    let after = next_state n in
    (n, or_one (after / 2 ^ (i % 96))) ∷ drawn_pairs rounds (suc i) after

-- `pairs`
unfoldable pub test_pairs : Pairs
test_pairs = all_pairs dividends divisors ++ drawn_pairs 128 0 0x123456789abcdef0123456789abcdef

-- An entry of `vectors`, before it is spelled.
pub record DivisionCase : Type 0 where
  pub n : ℕ
  pub d : ℕ
  pub q : ℕ
  pub r : ℕ

-- `divmod(n, d)` of a positive divisor.
abbrev pub division_of : ℕ × ℕ → DivisionCase
division_of pair = record { n = pair.0; d = pair.1; q = pair.0 / pair.1; r = pair.0 % pair.1 }

-- `for n, d in pairs`
unfoldable pub cases_of : Pairs → List DivisionCase
cases_of [] = []
cases_of (p ∷ ps) = division_of p ∷ cases_of ps

-- The two words of a value: `value >> 64` and `value & ((1 << 64)-1)`.
abbrev pub halves : ℕ → List ℕ
halves value = (value / 2 ^ 64) ∷ (value % 2 ^ 64) ∷ []

-- The row of `vectors.h`.
unfoldable pub row_of : DivisionCase → List ℕ
row_of c = halves c.n ++ (halves c.d ++ (halves c.q ++ halves c.r))
