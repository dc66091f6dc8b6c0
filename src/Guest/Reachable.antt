-- ===== src/Guest/Reachable.antt =====
-- scripts/icu_guest_link.py: the scope that the search finds is what can be reached, and the search
-- ends.
use artbox.Base.{
  ℕ, zero, suc, ◌+◌, ◌≤◌, ◌||◌, true, false, none, some, List, [], ◌∷◌, ◌++◌, length, length-append,
  Result, ok, err, ◌≡◌, ◌⊎◌, inl, inr, refl, ap, ◌∙◌, arith, Bool-cases, Option-cases,
}
use artbox.Base.Text.{◌≟◌, ≟_iff}
use artbox.Paths.{contains}
use artbox.Sources.Plan.{≟-sym}
use artbox.Tree.Writes.{≟-refl}
use artbox.Guest.Scope.{Image, Images, image_of, walk, needs_outside}

-- The libraries that are reached by following what images need.
pub data Reach (images : Images) (name : List ℕ) : List ℕ → Type 0 where
  start : Reach images name name
  step :
      (from to : List ℕ) (image : Image)
      → Reach images name from
      → image_of from images ≡ some image
      → contains to image.needed ≡ true
      → Reach images name to

pub contains-append_or :
    (x : List ℕ) (ys zs : List (List ℕ)) → contains x (ys ++ zs) ≡ (contains x ys || contains x zs)
unfolding contains
contains-append_or x [] zs = refl
contains-append_or x (y ∷ ys) zs = ground (arith, contains-append_or x ys zs)

needs_outside-less :
    (current : List ℕ) (scope : List (List ℕ)) (images : Images)
    → needs_outside (scope ++ current ∷ []) images ≤ needs_outside scope images
unfolding needs_outside contains
needs_outside-less current scope [] = omega arith
needs_outside-less current scope (e ∷ es) =
    ground (arith, needs_outside-less current scope es, contains-append_or e.0 scope (current ∷ []))

pub needs_outside-entered :
    (current : List ℕ) (scope : List (List ℕ)) (image : Image) (images : Images)
    → contains current scope ≡ false
    → image_of current images ≡ some image
    → length image.needed + needs_outside (scope ++ current ∷ []) images
      ≤ needs_outside scope images
unfolding needs_outside image_of contains
needs_outside-entered current scope image [] fresh held = cc
needs_outside-entered current scope image (e ∷ es) fresh held = elim (Bool-cases (current ≟ e.0)) [
  | inl same ↦
      let here : current ≡ e.0 = (≟_iff current e.0).0 same in
      let is : e.1 ≡ image = cc (rw same at held) in
      let added : contains e.0 (scope ++ current ∷ []) ≡ true =
        contains-append_or e.0 scope (current ∷ []) ∙ rw here (ground (arith, ≟-refl e.0)) in
      let out : contains e.0 scope ≡ false = rw here at fresh in
      rw (added, out)
        (omega (arith, ap (λ (i : Image). length i.needed) is, needs_outside-less current scope es))
  | inr other ↦
      let rest = needs_outside-entered current scope image es fresh (rw other at held) in
      let apart : (e.0 ≟ current) ≡ false = ≟-sym current e.0 other in
      let added : contains e.0 (scope ++ current ∷ []) ≡ contains e.0 scope =
        contains-append_or e.0 scope (current ∷ []) ∙ rw apart (ground arith) in
      rw added (omega (arith, rest))
]

abbrev pub missing : Result (List (List ℕ))
missing = err "Missing DT_NEEDED library"

-- The three kinds of a round.
module _ (rounds : ℕ) (images : Images) (current : List ℕ) (pending scope : List (List ℕ)) where
  pub walk-seen :
      contains current scope ≡ true
      → walk (suc rounds) images (current ∷ pending) scope ≡ walk rounds images pending scope
  unfolding walk
  walk-seen seen = rw (seen, walk) refl

  pub walk-absent :
      contains current scope ≡ false
      → image_of current images ≡ none
      → walk (suc rounds) images (current ∷ pending) scope ≡ missing
  unfolding walk
  walk-absent fresh absent = rw (fresh, walk) (rw absent refl)

  pub walk-entered :
      (image : Image)
      → contains current scope ≡ false
      → image_of current images ≡ some image
      → walk (suc rounds) images (current ∷ pending) scope
        ≡ walk rounds images (pending ++ image.needed) (scope ++ current ∷ [])
  unfolding walk
  walk-entered image fresh held = rw (fresh, walk) (rw held refl)

abbrev pub Ends : Result (List (List ℕ)) → Type 0
Ends result = ((found : List (List ℕ)) × (result ≡ ok found)) ⊎ (result ≡ missing)

-- The rounds are enough: the search returns a scope or misses an image.
pub walk-Ends :
    (rounds : ℕ) (images : Images) (pending scope : List (List ℕ))
    → length pending + needs_outside scope images ≤ rounds
    → Ends (walk rounds images pending scope)
walk-Ends rounds images [] scope enough = inl (scope, unfold walk in refl)
walk-Ends zero images (current ∷ pending) scope enough = absurd (omega arith)
walk-Ends (suc rounds) images (current ∷ pending) scope enough =
    elim (Bool-cases (contains current scope)) [
      | inl seen ↦
          rw (walk-seen rounds images current pending scope seen)
            (walk-Ends rounds images pending scope (omega arith))
      | inr fresh ↦ elim (Option-cases (image_of current images)) [
        | inl absent ↦ inr (walk-absent rounds images current pending scope fresh absent)
        | inr (image, held) ↦
            rw (walk-entered rounds images current pending scope image fresh held) (
              walk-Ends rounds images (pending ++ image.needed) (scope ++ current ∷ []) (
                omega (
                  arith,
                  length-append pending image.needed,
                  needs_outside-entered current scope image images fresh held,
                )))
      ]
    ]
