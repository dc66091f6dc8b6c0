-- ===== src/Base/Lists.antt =====
-- Lists measured, indexed and overwritten by native numbers.
use Prim.Native.Nat.{ℕ, zero, suc, ◌+◌, ◌-◌, ◌≤◌, ◌<◌, min}
use mathlib.Core.Path.{◌≡◌, refl, ap, ap₂}
use mathlib.Core.Logic.{◌⊎◌, inl, inr}
use mathlib.Core.List.{List, [], ◌∷◌, ◌++◌}
use native.Mathlib.Omega.{arith}

module _ {ℓ} {A : Type ℓ} where
  abbrev pub length : List A → ℕ
  length [] = 0
  length (x ∷ xs) = suc (length xs)

  abbrev pub get_or : List A → ℕ → A → A
  get_or [] i d = d
  get_or (x ∷ xs) zero d = x
  get_or (x ∷ xs) (suc i) d = get_or xs i d

  abbrev pub take : ℕ → List A → List A
  take zero xs = []
  take (suc n) [] = []
  take (suc n) (x ∷ xs) = x ∷ take n xs

  abbrev pub drop : ℕ → List A → List A
  drop zero xs = xs
  drop (suc n) [] = []
  drop (suc n) (x ∷ xs) = drop n xs

  abbrev pub replicate : ℕ → A → List A
  replicate zero a = []
  replicate (suc n) a = a ∷ replicate n a

  -- `xs[i:i + len(ys)] = ys`; what would fall behind the end is dropped.
  unfoldable pub overwrite : List A → ℕ → List A → List A
  overwrite [] i ys = []
  overwrite (x ∷ xs) zero [] = x ∷ xs
  overwrite (x ∷ xs) zero (y ∷ ys) = y ∷ overwrite xs zero ys
  overwrite (x ∷ xs) (suc i) ys = x ∷ overwrite xs i ys

module _ {ℓ} {A : Type ℓ} where
  pub length-append : (xs ys : List A) → length (xs ++ ys) ≡ length xs + length ys
  length-append [] ys = omega arith
  length-append (x ∷ xs) ys = omega (arith, length-append xs ys)

  pub length-replicate : (n : ℕ) (a : A) → length (replicate n a) ≡ n
  length-replicate zero a = refl
  length-replicate (suc n) a = ap suc (length-replicate n a)

  pub length-take : (n : ℕ) (xs : List A) → length (take n xs) ≡ min n (length xs)
  length-take zero xs = omega arith
  length-take (suc n) [] = omega arith
  length-take (suc n) (x ∷ xs) = omega (arith, length-take n xs)

  pub length-drop : (n : ℕ) (xs : List A) → length (drop n xs) ≡ length xs - n
  length-drop zero xs = omega arith
  length-drop (suc n) [] = omega arith
  length-drop (suc n) (x ∷ xs) = omega (arith, length-drop n xs)

  pub length-overwrite :
      (xs : List A) (i : ℕ) (ys : List A) → length (overwrite xs i ys) ≡ length xs
  unfolding overwrite
  length-overwrite [] i ys = refl
  length-overwrite (x ∷ xs) zero [] = refl
  length-overwrite (x ∷ xs) zero (y ∷ ys) = ap suc (length-overwrite xs zero ys)
  length-overwrite (x ∷ xs) (suc i) ys = ap suc (length-overwrite xs i ys)

  pub get_or-append_left :
      (xs ys : List A) (i : ℕ) (d : A) → i < length xs → get_or (xs ++ ys) i d ≡ get_or xs i d
  get_or-append_left [] ys i d h = absurd (omega arith)
  get_or-append_left (x ∷ xs) ys zero d h = refl
  get_or-append_left (x ∷ xs) ys (suc i) d h = get_or-append_left xs ys i d (omega arith)

  pub get_or-append_right :
      (xs ys : List A) (i : ℕ) (d : A)
      → length xs ≤ i
      → get_or (xs ++ ys) i d ≡ get_or ys (i - length xs) d
  get_or-append_right [] ys i d h = let e : i - 0 ≡ i = omega arith in rw e refl
  get_or-append_right (x ∷ xs) ys zero d h = absurd (omega arith)
  get_or-append_right (x ∷ xs) ys (suc i) d h =
      let e : suc i - suc (length xs) ≡ i - length xs = omega arith in
      rw e (get_or-append_right xs ys i d (omega arith))

  pub get_or-take :
      (n : ℕ) (xs : List A) (i : ℕ) (d : A) → i < n → get_or (take n xs) i d ≡ get_or xs i d
  get_or-take zero xs i d h = absurd (omega arith)
  get_or-take (suc n) [] i d h = refl
  get_or-take (suc n) (x ∷ xs) zero d h = refl
  get_or-take (suc n) (x ∷ xs) (suc i) d h = get_or-take n xs i d (omega arith)

  pub get_or-drop :
      (n : ℕ) (xs : List A) (i : ℕ) (d : A) → get_or (drop n xs) i d ≡ get_or xs (n + i) d
  get_or-drop zero xs i d = let e : 0 + i ≡ i = omega arith in rw e refl
  get_or-drop (suc n) [] i d = refl
  get_or-drop (suc n) (x ∷ xs) i d =
      let e : suc n + i ≡ suc (n + i) = omega arith in rw e (get_or-drop n xs i d)

  pub get_or-past : (xs : List A) (i : ℕ) (d : A) → length xs ≤ i → get_or xs i d ≡ d
  get_or-past [] i d h = refl
  get_or-past (x ∷ xs) zero d h = absurd (omega arith)
  get_or-past (x ∷ xs) (suc i) d h = get_or-past xs i d (omega arith)

  pub get_or-replicate : (n : ℕ) (a : A) (i : ℕ) → get_or (replicate n a) i a ≡ a
  get_or-replicate zero a i = refl
  get_or-replicate (suc n) a zero = refl
  get_or-replicate (suc n) a (suc i) = get_or-replicate n a i

module _ {ℓ} {A : Type ℓ} where
  -- A write is read back inside its range, and nothing changes outside of it.
  pub get_or-overwrite_outside :
      (xs : List A) (i : ℕ) (ys : List A) (j : ℕ) (d : A)
      → (j < i) ⊎ (i + length ys ≤ j)
      → get_or (overwrite xs i ys) j d ≡ get_or xs j d
  unfolding overwrite
  get_or-overwrite_outside [] i ys j d h = refl
  get_or-overwrite_outside (x ∷ xs) zero [] j d h = refl
  get_or-overwrite_outside (x ∷ xs) zero (y ∷ ys) zero d h = absurd (omega arith)
  get_or-overwrite_outside (x ∷ xs) zero (y ∷ ys) (suc j) d h =
      get_or-overwrite_outside xs zero ys j d (inr (omega arith))
  get_or-overwrite_outside (x ∷ xs) (suc i) ys zero d h = refl
  get_or-overwrite_outside (x ∷ xs) (suc i) ys (suc j) d h =
      get_or-overwrite_outside xs i ys j d
        (elim h [ inl p ↦ inl (omega arith) | inr p ↦ inr (omega arith) ])

  pub get_or-overwrite_inside :
      (xs : List A) (i : ℕ) (ys : List A) (k : ℕ) (d : A)
      → k < length ys
      → i + k < length xs
      → get_or (overwrite xs i ys) (i + k) d ≡ get_or ys k d
  unfolding overwrite
  get_or-overwrite_inside [] i ys k d h q = absurd (omega arith)
  get_or-overwrite_inside (x ∷ xs) zero [] k d h q = absurd (omega arith)
  get_or-overwrite_inside (x ∷ xs) zero (y ∷ ys) zero d h q = refl
  get_or-overwrite_inside (x ∷ xs) zero (y ∷ ys) (suc k) d h q =
      let e : 0 + suc k ≡ suc (0 + k) = omega arith in
      rw e (get_or-overwrite_inside xs zero ys k d (omega arith) (omega arith))
  get_or-overwrite_inside (x ∷ xs) (suc i) ys k d h q =
      let e : suc i + k ≡ suc (i + k) = omega arith in
      rw e (get_or-overwrite_inside xs i ys k d h (omega arith))

  -- Lists of one length that agree at every index are equal.
  pub get_or_ext :
      (d : A) (xs ys : List A)
      → length xs ≡ length ys
      → ((i : ℕ) → i < length xs → get_or xs i d ≡ get_or ys i d)
      → xs ≡ ys
  get_or_ext d [] [] e h = refl
  get_or_ext d [] (y ∷ ys) e h = absurd (omega arith)
  get_or_ext d (x ∷ xs) [] e h = absurd (omega arith)
  get_or_ext d (x ∷ xs) (y ∷ ys) e h =
      ap₂ ◌∷◌ (h 0 (omega arith))
        (get_or_ext d xs ys (omega arith) (λ i p. h (suc i) (omega arith)))

pub ++-nil : {A : Type 0} (xs : List A) → xs ++ [] ≡ xs
++-nil [] = refl
++-nil (x ∷ xs) = ap (x ∷◌) (++-nil xs)

pub ++-assoc_one :
    {A : Type 0} (xs : List A) (x : A) (ys : List A) → (xs ++ x ∷ []) ++ ys ≡ xs ++ x ∷ ys
++-assoc_one [] x ys = refl
++-assoc_one (z ∷ xs) x ys = ap (z ∷◌) (++-assoc_one xs x ys)
