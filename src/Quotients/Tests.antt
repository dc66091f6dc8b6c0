-- ===== src/Quotients/Tests.antt =====
-- scripts/libcore_builtins.py: how many cases there are, and the first that is drawn.
use artbox.Base.{◌+◌, ◌^◌, [], ◌∷◌, length, ◌≡◌, refl}
use artbox.Quotients.{
  with_each, all_pairs, next_state, drawn_pairs, test_pairs, cases_of, row_of, division_of,
}

counted : length (cases_of test_pairs) ≡ 228
unfolding cases_of test_pairs all_pairs with_each drawn_pairs next_state
counted = refl

row_test : row_of (division_of (2 ^ 64 + 1, 2)) ≡ 1 ∷ 1 ∷ 0 ∷ 2 ∷ 0 ∷ (2 ^ 63) ∷ 0 ∷ 1 ∷ []
unfolding row_of
row_test = refl
