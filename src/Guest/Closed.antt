-- ===== src/Guest/Closed.antt =====
-- scripts/icu_guest_link.py: a scope holds exactly what is reached, and `check_dependencies` leaves no
-- strong import open.
use artbox.Base.{
  ℕ, zero, suc, ◌≤◌, true, false, none, some, List, [], ◌∷◌, ◌++◌, length, length-append, ◌+◌, ok,
  ◌≡◌, ◌⊎◌, inl, inr, refl, sym, ◌∙◌, arith, Bool-cases, Option-cases, ok-injective,
}
use artbox.Base.Text.{◌≟◌, ≟_iff}
use artbox.Paths.{contains}
use artbox.Sources.Plan.{Distinct, Distinct-append}
use artbox.Tree.Writes.{≟-refl}
use artbox.Guest.Scope.{Image, Images, image_of, walk, scope_of, needs_outside}
use artbox.Guest.Reachable.{
  Reach, contains-append_or, walk-seen, walk-absent, walk-entered, missing, walk-Ends,
  needs_outside-entered,
}

abbrev pub In : List ℕ → List (List ℕ) → Type 0
In x xs = contains x xs ≡ true

pub In-head : (x : List ℕ) (xs : List (List ℕ)) → In x (x ∷ xs)
unfolding contains
In-head x xs = rw (≟-refl x) refl

pub In-tail : (x y : List ℕ) (xs : List (List ℕ)) → In x xs → In x (y ∷ xs)
unfolding contains
In-tail x y xs h = ground arith

pub In-cons : (x y : List ℕ) (xs : List (List ℕ)) → In x (y ∷ xs) → (x ≡ y) ⊎ In x xs
unfolding contains
In-cons x y xs h = elim (Bool-cases (x ≟ y)) [
  | inl same ↦ inl ((≟_iff x y).0 same)
  | inr other ↦ inr (rw other at h)
]

In-left : (x : List ℕ) (ys zs : List (List ℕ)) → In x ys → In x (ys ++ zs)
In-left x ys zs h = ground (arith, contains-append_or x ys zs)

In-right : (x : List ℕ) (ys zs : List (List ℕ)) → In x zs → In x (ys ++ zs)
In-right x ys zs h = ground (arith, contains-append_or x ys zs)

pub In-append : (x : List ℕ) (ys zs : List (List ℕ)) → In x (ys ++ zs) → In x ys ⊎ In x zs
In-append x ys zs h = elim (Bool-cases (contains x ys)) [
  | inl first ↦ inl first
  | inr second ↦ inr (ground (arith, contains-append_or x ys zs))
]

module _ (images : Images) (name : List ℕ) where
  -- What holds between two rounds.
  record IsSearching (pending scope : List (List ℕ)) : Type 0 where
    reached : (x : List ℕ) → In x scope → Reach images name x
    waiting : (x : List ℕ) → In x pending → Reach images name x
    followed :
        (x to : List ℕ) (image : Image)
        → In x scope
        → image_of x images ≡ some image
        → In to image.needed
        → In to scope ⊎ In to pending
    present : (x : List ℕ) → In x scope → (image : Image) × (image_of x images ≡ some image)
    distinct : Distinct scope
    rooted : In name scope ⊎ In name pending

  -- A scope in the sense of the code: what is reached, each of it once, and all of it there.
  pub record IsScope (scope : List (List ℕ)) : Type 0 where
    pub sound : (x : List ℕ) → In x scope → Reach images name x
    pub complete : (x : List ℕ) → Reach images name x → In x scope
    pub present : (x : List ℕ) → In x scope → (image : Image) × (image_of x images ≡ some image)
    pub distinct : Distinct scope

  no_more : (x : List ℕ) (xs : List (List ℕ)) → In x xs ⊎ In x [] → In x xs
  unfolding contains
  no_more x xs (inl h) = h
  no_more x xs (inr h) = cc

  all_found :
      (scope : List (List ℕ)) (s : IsSearching [] scope) (x : List ℕ)
      → Reach images name x
      → In x scope
  all_found scope s x Reach.start = no_more name scope s.rooted
  all_found scope s x (Reach.step from to image before held needs) =
      no_more to scope (s.followed from to image (all_found scope s from before) held needs)

  or_moved :
      (x current : List ℕ) (scope pending : List (List ℕ))
      → In current scope
      → In x scope ⊎ In x (current ∷ pending)
      → In x scope ⊎ In x pending
  or_moved x current scope pending seen (inl h) = inl h
  or_moved x current scope pending seen (inr h) = elim (In-cons x current pending h) [
    | inl same ↦ inl (rw same seen)
    | inr later ↦ inr later
  ]

  seen-IsSearching :
      (current : List ℕ) (pending scope : List (List ℕ))
      → In current scope
      → IsSearching (current ∷ pending) scope
      → IsSearching pending scope
  seen-IsSearching current pending scope seen s = record {
    reached = s.reached;
    waiting = λ x h. s.waiting x (In-tail x current pending h);
    followed = λ x to image h held needs.
        or_moved to current scope pending seen (s.followed x to image h held needs);
    present = s.present;
    distinct = s.distinct;
    rooted = or_moved name current scope pending seen s.rooted;
  }

  or_entered :
      (x current : List ℕ) (scope pending needed : List (List ℕ))
      → In x scope ⊎ In x (current ∷ pending)
      → In x (scope ++ current ∷ []) ⊎ In x (pending ++ needed)
  or_entered x current scope pending needed (inl h) = inl (In-left x scope (current ∷ []) h)
  or_entered x current scope pending needed (inr h) = elim (In-cons x current pending h) [
    | inl same ↦ inl (In-right x scope (current ∷ []) (rw same (In-head current [])))
    | inr later ↦ inr (In-left x pending needed later)
  ]

  last_or :
      (x current : List ℕ) (scope : List (List ℕ))
      → In x (scope ++ current ∷ [])
      → In x scope ⊎ (x ≡ current)
  unfolding contains
  last_or x current scope h = elim (In-append x scope (current ∷ []) h) [
    | inl before ↦ inl before
    | inr last ↦ elim (In-cons x current [] last) [ inl same ↦ inr same | inr never ↦ cc ]
  ]

  entered-IsSearching :
      (current : List ℕ) (pending scope : List (List ℕ)) (image : Image)
      → contains current scope ≡ false
      → image_of current images ≡ some image
      → IsSearching (current ∷ pending) scope
      → IsSearching (pending ++ image.needed) (scope ++ current ∷ [])
  entered-IsSearching current pending scope image fresh held s =
      let here = s.waiting current (In-head current pending) in
      record {
        reached = λ x h. elim (last_or x current scope h) [
          | inl before ↦ s.reached x before
          | inr same ↦ rw same here
        ];
        waiting = λ x h. elim (In-append x pending image.needed h) [
          | inl before ↦ s.waiting x (In-tail x current pending before)
          | inr needs ↦ Reach.step current x image here held needs
        ];
        followed = λ x to other h held' needs. elim (last_or x current scope h) [
          | inl before ↦
              or_entered to current scope pending image.needed
                (s.followed x to other before held' needs)
          | inr same ↦
              let is : other ≡ image = cc (rw same at held') in
              inr (In-right to pending image.needed (rw is at needs))
        ];
        present = λ x h. elim (last_or x current scope h) [
          | inl before ↦ s.present x before
          | inr same ↦ (image, rw same held)
        ];
        distinct = Distinct-append scope current s.distinct fresh;
        rooted = or_entered name current scope pending image.needed s.rooted;
      }

  walk-IsScope :
      (rounds : ℕ) (pending scope found : List (List ℕ))
      → IsSearching pending scope
      → walk rounds images pending scope ≡ ok found
      → IsScope found
  walk-IsScope rounds [] scope found s e =
      let is : scope ≡ found = ok-injective (unfold walk in e) in
      rw (sym is) (record {
        sound = s.reached;
        complete = all_found scope s;
        present = s.present;
        distinct = s.distinct;
      })
  walk-IsScope zero (current ∷ pending) scope found s e = unfold walk in cc
  walk-IsScope (suc rounds) (current ∷ pending) scope found s e =
      elim (Bool-cases (contains current scope)) [
        | inl seen ↦
            walk-IsScope rounds pending scope found (seen-IsSearching current pending scope seen s)
              (sym (walk-seen rounds images current pending scope seen) ∙ e)
        | inr fresh ↦ elim (Option-cases (image_of current images)) [
          | inl absent ↦ cc (walk-absent rounds images current pending scope fresh absent)
          | inr (image, held) ↦
              walk-IsScope rounds (pending ++ image.needed) (scope ++ current ∷ []) found
                (entered-IsSearching current pending scope image fresh held s)
                (sym (walk-entered rounds images current pending scope image fresh held) ∙ e)
        ]
      ]

  start-IsSearching : IsSearching (name ∷ []) []
  unfolding contains
  start-IsSearching = record {
    reached = λ x h. cc;
    waiting = λ x h. elim (In-cons x name [] h) [ inl same ↦ rw same Reach.start | inr never ↦ cc ];
    followed = λ x to image h held needs. cc;
    present = λ x h. cc;
    distinct = tt;
    rooted = inr (In-head name []);
  }

  pub scope_of-IsScope : (scope : List (List ℕ)) → scope_of images name ≡ ok scope → IsScope scope
  unfolding scope_of
  scope_of-IsScope scope e =
      walk-IsScope (suc (needs_outside [] images)) (name ∷ []) [] scope start-IsSearching e

  walk-missing :
      (rounds : ℕ) (pending scope : List (List ℕ))
      → IsSearching pending scope
      → length pending + needs_outside scope images ≤ rounds
      → walk rounds images pending scope ≡ missing
      → (x : List ℕ) × Reach images name x × (image_of x images ≡ none)
  walk-missing rounds [] scope s enough e = unfold walk in cc
  walk-missing zero (current ∷ pending) scope s enough e = absurd (omega arith)
  walk-missing (suc rounds) (current ∷ pending) scope s enough e =
      elim (Bool-cases (contains current scope)) [
        | inl seen ↦
            walk-missing rounds pending scope (seen-IsSearching current pending scope seen s)
              (omega arith) (sym (walk-seen rounds images current pending scope seen) ∙ e)
        | inr fresh ↦ elim (Option-cases (image_of current images)) [
          | inl absent ↦ (current, s.waiting current (In-head current pending), absent)
          | inr (image, held) ↦
              walk-missing rounds (pending ++ image.needed) (scope ++ current ∷ [])
                (entered-IsSearching current pending scope image fresh held s)
                (omega (
                  arith,
                  length-append pending image.needed,
                  needs_outside-entered current scope image images fresh held,
                ))
                (sym (walk-entered rounds images current pending scope image fresh held) ∙ e)
        ]
      ]

  -- The two ends of a search, each with its reason.
  abbrev pub Found : Type 0
  Found = (scope : List (List ℕ)) × (scope_of images name ≡ ok scope) × IsScope scope

  abbrev pub Missed : Type 0
  Missed =
      (scope_of images name ≡ missing)
      × ((x : List ℕ) × Reach images name x × (image_of x images ≡ none))

  -- The search over `DT_NEEDED` always ends, in one of two ways: with a scope that holds
  -- exactly what is reached from the name, each once and each present, or with the error of a
  -- missing library, and then some library that is reached has no image.
  pub scope_of-decides : Found ⊎ Missed
  unfolding scope_of
  scope_of-decides =
      let rounds = suc (needs_outside [] images) in
      elim (walk-Ends rounds images (name ∷ []) [] (omega arith)) [
        | inl (found, e) ↦
            inl (found, e, walk-IsScope rounds (name ∷ []) [] found start-IsSearching e)
        | inr e ↦ inr (e, walk-missing rounds (name ∷ []) [] start-IsSearching (omega arith) e)
      ]
