-- ===== src/Base/Text.antt =====
-- Texts as their character codes, and Boolean equality of such lists.
use Prim.Native.Nat.{ℕ}
use Prim.Native.Char.{code}
use Prim.Native.String.{String}
use mathlib.Core.Path.{◌≡◌, refl}
use mathlib.Core.Logic.{◌↔◌}
use mathlib.Core.Bool.{Bool, true, false, ◌&&◌}
use mathlib.Core.List.{List, [], ◌∷◌}
use native.Mathlib.Omega.{arith}
use artbox.Base.Tests.{◌==◌}

abbrev pub codes : String → List ℕ
codes String.[] = []
codes (String.◌∷◌ c s) = code c ∷ codes s

infix 50 ◌≟◌
unfoldable pub ◌≟◌ : List ℕ → List ℕ → Bool
[] ≟ [] = true
[] ≟ (y ∷ ys) = false
(x ∷ xs) ≟ [] = false
(x ∷ xs) ≟ (y ∷ ys) = x == y && xs ≟ ys

pub ≟_iff : (xs ys : List ℕ) → ((xs ≟ ys) ≡ true) ↔ (xs ≡ ys)
unfolding ◌≟◌
≟_iff [] [] = ((λ h. refl), (λ h. refl))
≟_iff [] (y ∷ ys) = ((λ h. cc), (λ h. cc))
≟_iff (x ∷ xs) [] = ((λ h. cc), (λ h. cc))
≟_iff (x ∷ xs) (y ∷ ys) = ground (arith, ≟_iff xs ys)
