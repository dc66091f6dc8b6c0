-- ===== src/Paths/Laws.antt =====
-- Paths as scripts/sources.py takes them apart: what a component of a path can hold.
use artbox.Base.{ℕ, ◌==◌, true, false, List, [], ◌∷◌, ◌++◌, ◌≡◌, refl, arith, inl, inr, Bool-cases}
use artbox.Base.Text.{◌≟◌}
use artbox.Paths.{
  slash, dot_dot, contains, has_char, grow_first, split_slash, is_kept, keep_parts, parts,
}

abbrev pub Every {ℓ κ} : {A : Type ℓ} → (A → Type κ) → List A → Type κ
Every P [] = Unit
Every P (x ∷ xs) = P x × Every P xs

pub Every-append {ℓ κ} :
    {A : Type ℓ} (P : A → Type κ) (xs : List A) (y : A) → Every P xs → P y → Every P (xs ++ y ∷ [])
Every-append P [] y h p = (p, tt)
Every-append P (x ∷ xs) y h p = (h.0, Every-append P xs y h.1 p)

module _ (c : ℕ) where
  abbrev pub Without : List ℕ → Type 0
  Without word = has_char c word ≡ false

  grow_first-Without :
      (d : ℕ) (ws : List (List ℕ))
      → (c == d) ≡ false
      → Every Without ws
      → Every Without (grow_first d ws)
  unfolding has_char
  grow_first-Without d [] e h = (rw e refl, tt)
  grow_first-Without d (w ∷ ws) e h = (rw (e, h.0) refl, h.1)

  split_slash-Without : (text : List ℕ) → Without text → Every Without (split_slash text)
  unfolding split_slash has_char
  split_slash-Without [] h = (refl, tt)
  split_slash-Without (d ∷ ds) h =
      let differs : (c == d) ≡ false = ground arith in
      let rest = split_slash-Without ds (ground arith) in
      elim (Bool-cases (d == slash)) [
        | inl cut ↦ rw cut (refl, rest)
        | inr word ↦ rw word (grow_first-Without d (split_slash ds) differs rest)
      ]

split_slash-no_slash : (text : List ℕ) → Every (Without slash) (split_slash text)
unfolding split_slash has_char
split_slash-no_slash [] = (refl, tt)
split_slash-no_slash (d ∷ ds) = elim (Bool-cases (d == slash)) [
  | inl cut ↦ rw cut (refl, split_slash-no_slash ds)
  | inr word ↦
      let differs : (slash == d) ≡ false = ground arith in
      rw word (grow_first-Without slash d (split_slash ds) differs (split_slash-no_slash ds))
]

module _ {κ} (P : List ℕ → Type κ) where
  keep_parts-Every : (ws : List (List ℕ)) → Every P ws → Every P (keep_parts ws)
  unfolding keep_parts
  keep_parts-Every [] h = h
  keep_parts-Every (w ∷ ws) h = elim (Bool-cases (is_kept w)) [
    | inl kept ↦ rw kept (h.0, keep_parts-Every ws h.1)
    | inr dropped ↦ rw dropped (keep_parts-Every ws h.1)
  ]

keep_parts-kept : (ws : List (List ℕ)) → Every (λ w. is_kept w ≡ true) (keep_parts ws)
unfolding keep_parts
keep_parts-kept [] = tt
keep_parts-kept (w ∷ ws) = elim (Bool-cases (is_kept w)) [
  | inl kept ↦ rw kept (kept, keep_parts-kept ws)
  | inr dropped ↦ rw dropped (keep_parts-kept ws)
]

contains-Every :
    (word : List ℕ) (ws : List (List ℕ))
    → contains word ws ≡ false
    → Every (λ w. (word ≟ w) ≡ false) ws
unfolding contains
contains-Every word [] h = tt
contains-Every word (w ∷ ws) h = (ground arith, contains-Every word ws (ground arith))

-- A component that names neither a directory above nor anything outside of the tree.
pub record IsPart (word : List ℕ) : Type 0 where
  pub kept : is_kept word ≡ true
  pub not_up : (dot_dot ≟ word) ≡ false
  pub no_slash : has_char slash word ≡ false
  pub no_colon : has_char 58 word ≡ false
  pub no_backslash : has_char 92 word ≡ false

zip :
    (ws : List (List ℕ))
    → Every (λ w. is_kept w ≡ true) ws
    → Every (λ w. (dot_dot ≟ w) ≡ false) ws
    → Every (Without slash) ws
    → Every (Without 58) ws
    → Every (Without 92) ws
    → Every IsPart ws
zip [] a b c d e = tt
zip (w ∷ ws) a b c d e = (
  record { kept = a.0; not_up = b.0; no_slash = c.0; no_colon = d.0; no_backslash = e.0 },
  zip ws a.1 b.1 c.1 d.1 e.1,
)

-- The components of a path without the marks that the code refuses.
pub parts-IsPart :
    (text : List ℕ)
    → contains dot_dot (parts text) ≡ false
    → has_char 58 text ≡ false
    → has_char 92 text ≡ false
    → Every IsPart (parts text)
unfolding parts
parts-IsPart text up colon backslash =
    zip (parts text) (keep_parts-kept (split_slash text)) (contains-Every dot_dot (parts text) up)
      (keep_parts-Every (Without slash) (split_slash text) (split_slash-no_slash text))
      (keep_parts-Every (Without 58) (split_slash text) (split_slash-Without 58 text colon))
      (keep_parts-Every (Without 92) (split_slash text) (split_slash-Without 92 text backslash))
