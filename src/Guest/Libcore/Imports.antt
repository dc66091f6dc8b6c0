-- ===== src/Guest/Libcore/Imports.antt =====
-- scripts/art_guest_link.py: the open imports of an image that `check_imports` accepts.
use artbox.Base.{
  ℕ, ◌&&◌, ◌||◌, not, true, false, List, [], ◌∷◌, ok, ◌≡◌, ◌⊎◌, ◌↔◌, inl, inr, refl, sym, ap, ap₂,
  ◌∙◌, arith, Bool-cases, and-eq-true, require-elim,
}
use artbox.Base.Text.{◌≟◌, ≟_iff}
use artbox.Paths.{contains}
use artbox.Tree.Writes.{≟-refl}
use artbox.Guest.Scope.{strong, missing_of}
use artbox.Guest.Libcore.{Imports, insert_name, sorted, same_names, host_imports, check_imports}

contains-insert_name :
    (x y : List ℕ) (ys : List (List ℕ)) → contains x (insert_name y ys) ≡ (x ≟ y || contains x ys)
unfolding contains insert_name
contains-insert_name x y [] = refl
contains-insert_name x y (z ∷ zs) = ground (arith, contains-insert_name x y zs)

contains-sorted : (x : List ℕ) (ys : List (List ℕ)) → contains x (sorted ys) ≡ contains x ys
unfolding contains sorted
contains-sorted x [] = refl
contains-sorted x (y ∷ ys) = contains-insert_name x y (sorted ys) ∙ rw (contains-sorted x ys) refl

same_names→eq : (xs ys : List (List ℕ)) → same_names xs ys ≡ true → xs ≡ ys
unfolding same_names
same_names→eq [] [] h = refl
same_names→eq [] (y ∷ ys) h = cc
same_names→eq (x ∷ xs) [] h = cc
same_names→eq (x ∷ xs) (y ∷ ys) h =
    let (first, rest) = and-eq-true (x ≟ y) (same_names xs ys) h in
    ap₂ (λ (z : List ℕ) (zs : List (List ℕ)). z ∷ zs) ((≟_iff x y).0 first)
      (same_names→eq xs ys rest)

-- A name is imported strongly and not among some exports.
abbrev pub IsOpen : List (List ℕ) → List ℕ → Imports → Type 0
IsOpen provided name [] = ⊥
IsOpen provided name (i ∷ is) =
    ((i.0 ≡ name) × ((i.1 ≟ strong) ≡ true) × (contains name provided ≡ false))
    ⊎ IsOpen provided name is

missing_of→IsOpen :
    (provided : List (List ℕ)) (name : List ℕ) (imports : Imports)
    → contains name (missing_of provided imports) ≡ true
    → IsOpen provided name imports
unfolding missing_of contains
missing_of→IsOpen provided name [] h = cc
missing_of→IsOpen provided name (i ∷ is) h =
    elim (Bool-cases (i.1 ≟ strong && not (contains i.0 provided))) [
      | inr fine ↦ inr (missing_of→IsOpen provided name is (rw fine at h))
      | inl missing ↦ elim (Bool-cases (name ≟ i.0)) [
        | inr other ↦ inr (missing_of→IsOpen provided name is (rw other at (rw missing at h)))
        | inl same ↦
            let e : name ≡ i.0 = (≟_iff name i.0).0 same in
            let absent : contains i.0 provided ≡ false = ground arith in
            inl (sym e, ground arith, rw e absent)
      ]
    ]

IsOpen→missing_of :
    (provided : List (List ℕ)) (name : List ℕ) (imports : Imports)
    → IsOpen provided name imports
    → contains name (missing_of provided imports) ≡ true
unfolding missing_of contains
IsOpen→missing_of provided name [] h = absurd h
IsOpen→missing_of provided name (i ∷ is) (inl (e, kind, absent)) =
    let absent' : contains i.0 provided ≡ false = rw e absent in
    rw (kind, absent') (rw e (ground (arith, ≟-refl name)))
IsOpen→missing_of provided name (i ∷ is) (inr later) =
    let rest = IsOpen→missing_of provided name is later in
    elim (Bool-cases (i.1 ≟ strong && not (contains i.0 provided))) [
      | inr fine ↦ rw fine rest
      | inl missing ↦ rw missing (ground arith)
    ]

-- When `check_imports` of ART returns, a name is one of the eight bindings exactly when the
-- image imports it strongly and no dependency exports it.
pub check_imports-IsOpen :
    (imports : Imports) (exports missing : List (List ℕ))
    → check_imports imports exports ≡ ok missing
    → (name : List ℕ) → (contains name host_imports ≡ true) ↔ IsOpen exports name imports
unfolding check_imports
check_imports-IsOpen imports exports missing e name =
    require-elim (same_names (sorted (missing_of exports imports)) (sorted host_imports))
      "Full ART imports differ from the eight explicit VM/TLS bindings" e
      λ same _.
        let lists =
          same_names→eq (sorted (missing_of exports imports)) (sorted host_imports) same in
        let agree : contains name (missing_of exports imports) ≡ contains name host_imports =
          sym (contains-sorted name (missing_of exports imports))
          ∙ ap (λ (names : List (List ℕ)). contains name names) lists
          ∙ contains-sorted name host_imports in
        (
          (λ allowed. missing_of→IsOpen exports name imports (agree ∙ allowed)),
          (λ is. sym agree ∙ IsOpen→missing_of exports name imports is),
        )
