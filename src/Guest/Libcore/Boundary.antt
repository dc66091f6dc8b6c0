-- ===== src/Guest/Libcore/Boundary.antt =====
-- scripts/libcore_guest_link.py: what `check_dependencies` promises of the images as they are.
use artbox.Base.{
  ℕ, not, true, false, Option, none, some, List, [], ◌∷◌, ok, ◌≡◌, ◌⊎◌, inl, inr, refl, sym, ap,
  ◌∙◌, arith, Bool-cases, Option-cases, >>=-elim, require-elim, ok-injective,
}
use artbox.Base.Text.{◌≟◌, ≟_iff}
use artbox.Paths.{contains}
use artbox.Paths.Laws.{Every}
use artbox.Sources.Archive.{starts_with}
use artbox.Sources.Plan.{not-true}
use artbox.Guest.Scope.{Image, Images, image_of, Scopes, strong, check_dependencies}
use artbox.Guest.Closed.{In, IsScope}
use artbox.Guest.Resolved.{
  IsProvided, IsResolved, IsChecked, AllChecked, check_dependencies-AllChecked,
}
use artbox.Guest.Libcore.{
  openjdkjvm, get_tls, Imports, kind_of, without, is_strong, set_image, pop_boundary, review,
  jni_constants, any_export, shows_constants, check_hidden, scope_named, javacore, check_libcore,
}
use artbox.Guest.Libcore.Same.{
  AreSame, IsScope-same, IsProvided-same, image_of-set_image_same, image_of-set_image_other,
  set_image-AreSame,
}

-- A strong import is provided in the scope, or is the one binding of the one library.
abbrev pub IsAllowed : Images → List ℕ → List (List ℕ) → List ℕ × List ℕ → Type 0
IsAllowed images name scope i =
    (i.1 ≟ strong) ≡ true → IsProvided images scope i.0 ⊎ ((name ≡ openjdkjvm) × (i.0 ≡ get_tls))

-- What is promised of a name and its entry of the scopes.
pub record IsBound (images : Images) (name : List ℕ) (entry : List ℕ × List (List ℕ)) : Type 0 where
  pub named : entry.0 ≡ name
  pub scope : IsScope images name entry.1
  pub image : Image
  pub held : image_of name images ≡ some image
  pub allowed : Every (IsAllowed images name entry.1) image.imports

abbrev pub AllBound : Images → List (List ℕ) → Scopes → Type 0
AllBound images [] [] = Unit
AllBound images [] (e ∷ es) = ⊥
AllBound images (n ∷ ns) [] = ⊥
AllBound images (n ∷ ns) (e ∷ es) = IsBound images n e × AllBound images ns es

allow_all :
    (images : Images) (name : List ℕ) (scope : List (List ℕ)) (imports : Imports)
    → Every (IsResolved images scope) imports
    → Every (IsAllowed images name scope) imports
allow_all images name scope [] h = tt
allow_all images name scope (i ∷ is) h =
    ((λ kind. inl (h.0 kind)), allow_all images name scope is h.1)

unchanged :
    (images : Images) (names : List (List ℕ)) (scopes : Scopes)
    → AllChecked images names scopes
    → AllBound images names scopes
unchanged images [] [] all = tt
unchanged images [] (e ∷ es) all = all
unchanged images (n ∷ ns) [] all = all
unchanged images (n ∷ ns) (e ∷ es) all = (
  record {
    named = all.0.named;
    scope = all.0.scope;
    image = all.0.image;
    held = all.0.held;
    allowed = allow_all images n e.1 all.0.image.imports all.0.resolved;
  },
  unchanged images ns es all.1,
)

-- The imports that were not popped are provided, and the popped one is the binding.
allow_without :
    (reviewed images : Images) (name : List ℕ) (scope : List (List ℕ)) (imports : Imports)
    → AreSame reviewed images
    → name ≡ openjdkjvm
    → Every (IsResolved reviewed scope) (without get_tls imports)
    → Every (IsAllowed images name scope) imports
unfolding without
allow_without reviewed images name scope [] same is h = tt
allow_without reviewed images name scope (i ∷ is) same jvm h = elim (Bool-cases (get_tls ≟ i.0)) [
  | inl popped ↦ (
    (λ kind. inr (jvm, sym ((≟_iff get_tls i.0).0 popped))),
    allow_without reviewed images name scope is same jvm (rw popped at h),
  )
  | inr kept ↦
      let h' : Every (IsResolved reviewed scope) (i ∷ without get_tls is) = rw kept at h in
      (
        (λ kind. inl (IsProvided-same reviewed images scope i.0 same (h'.0 kind))),
        allow_without reviewed images name scope is same jvm h'.1,
      )
]

allow_same :
    (reviewed images : Images) (name : List ℕ) (scope : List (List ℕ)) (imports : Imports)
    → AreSame reviewed images
    → Every (IsResolved reviewed scope) imports
    → Every (IsAllowed images name scope) imports
allow_same reviewed images name scope [] same h = tt
allow_same reviewed images name scope (i ∷ is) same h = (
  (λ kind. inl (IsProvided-same reviewed images scope i.0 same (h.0 kind))),
  allow_same reviewed images name scope is same h.1,
)

-- The image that is put in the place of `libopenjdkjvm.so`.
abbrev popped : Image → Image
popped image = record image { imports = without get_tls image.imports }

module _ (images : Images) (image : Image) (held : image_of openjdkjvm images ≡ some image) where
  abbrev reviewed : Images
  reviewed = set_image openjdkjvm (popped image) images

  reviewed-AreSame : AreSame reviewed images
  reviewed-AreSame = set_image-AreSame (popped image) image images held refl refl

  checked-IsBound :
      (name : List ℕ) (entry : List ℕ × List (List ℕ))
      → IsChecked reviewed name entry
      → IsBound images name entry
  checked-IsBound name entry c = elim (Bool-cases (name ≟ openjdkjvm)) [
    | inl same ↦
        let is : name ≡ openjdkjvm = (≟_iff name openjdkjvm).0 same in
        let e : c.image ≡ popped image = cc (
          c.held,
          ap (λ (n : List ℕ). image_of n reviewed) is,
          image_of-set_image_same openjdkjvm (popped image) image images held,
        ) in
        record {
          named = c.named;
          scope = IsScope-same reviewed images name entry.1 reviewed-AreSame c.scope;
          image = image;
          held = rw is held;
          allowed =
              allow_without reviewed images name entry.1 image.imports reviewed-AreSame is
                (rw (ap (λ (i : Image). i.imports) e) at c.resolved);
        }
    | inr other ↦ record {
      named = c.named;
      scope = IsScope-same reviewed images name entry.1 reviewed-AreSame c.scope;
      image = c.image;
      held = sym (image_of-set_image_other name openjdkjvm (popped image) images other) ∙ c.held;
      allowed = allow_same reviewed images name entry.1 c.image.imports reviewed-AreSame c.resolved;
    }
  ]

  changed_images :
      (names : List (List ℕ)) (scopes : Scopes)
      → AllChecked reviewed names scopes
      → AllBound images names scopes
  changed_images [] [] all = tt
  changed_images [] (e ∷ es) all = all
  changed_images (n ∷ ns) [] all = all
  changed_images (n ∷ ns) (e ∷ es) all = (checked-IsBound n e all.0, changed_images ns es all.1)

-- No export begins with the name of the class cache.
abbrev pub IsHidden : List ℕ → Type 0
IsHidden symbol = starts_with symbol jni_constants ≡ false

any_export-none : (symbols : List (List ℕ)) → any_export symbols ≡ false → Every IsHidden symbols
unfolding any_export
any_export-none [] h = tt
any_export-none (s ∷ ss) h = (ground arith, any_export-none ss (ground arith))

shows_constants-false :
    (o : Option Image)
    → shows_constants o ≡ ok false
    → (image : Image) × (o ≡ some image) × Every IsHidden image.exports
unfolding shows_constants
shows_constants-false none e = cc
shows_constants-false (some image) e = (image, refl, any_export-none image.exports (ok-injective e))

abbrev pub AllHidden : Images → List (List ℕ) → Type 0
AllHidden images names =
    Every
      (λ name. (image : Image) × (image_of name images ≡ some image) × Every IsHidden image.exports)
      names

check_hidden-AllHidden :
    (images : Images) (names : List (List ℕ))
    → check_hidden images names ≡ ok tt
    → AllHidden images names
unfolding check_hidden
check_hidden-AllHidden images [] e = tt
check_hidden-AllHidden images (name ∷ names) e =
    >>=-elim (shows_constants (image_of name images)) e λ visible shown e₁.
      require-elim (not visible) "JniConstants is visible in javacore lookup scope" e₁ λ hidden e₂.
        let free : visible ≡ false = not-true hidden in
        (
          shows_constants-false (image_of name images) (rw free at shown),
          check_hidden-AllHidden images names e₂,
        )

-- What `check_dependencies` of libcore promises.
pub record IsLibcore (images : Images) (checked : List (List ℕ)) (scopes : Scopes) : Type 0 where
  pub bound : AllBound images checked scopes
  pub retained :
      In openjdkjvm checked
      → (image : Image) × (image_of openjdkjvm images ≡ some image)
        × (kind_of get_tls image.imports ≡ some strong)
  pub hidden : AllHidden images (scope_named javacore scopes)

strong_kind : (o : Option (List ℕ)) → is_strong o ≡ true → o ≡ some strong
strong_kind none h = cc
strong_kind (some kind) h = ap (λ (k : List ℕ). some k) ((≟_iff kind strong).0 h)

-- When `check_dependencies` of libcore returns, the scope of each checked name, in order, is
-- exactly what its `DT_NEEDED` entries reach in the images, each of them once and each present;
-- every strong import of a checked image is exported in its scope, except artbox_bionic_get_tls
-- of libopenjdkjvm.so, which that library imports strongly if it is checked; and no image in
-- the scope of libjavacore.so exports a symbol that begins with _ZN12JniConstants.
pub check_libcore-IsLibcore :
    (images : Images) (checked : List (List ℕ)) (scopes : Scopes)
    → check_libcore images checked ≡ ok scopes
    → IsLibcore images checked scopes
unfolding check_libcore review pop_boundary
check_libcore-IsLibcore images checked scopes e =
    >>=-elim (review images checked) e λ reviewed made e₁.
      >>=-elim (check_dependencies reviewed checked) e₁ λ found closed e₂.
        >>=-elim (check_hidden images (scope_named javacore found)) e₂ λ _ hidden e₃.
          let is : found ≡ scopes = ok-injective e₃ in
          let all = check_dependencies-AllChecked reviewed checked found closed in
          let hides = check_hidden-AllHidden images (scope_named javacore found) hidden in
          rw (sym is) (elim (Bool-cases (contains openjdkjvm checked)) [
            | inr free ↦
                let same : images ≡ reviewed = ok-injective (rw free at made) in
                record {
                  bound = unchanged images checked found (rw (sym same) at all);
                  retained = λ h. cc;
                  hidden = hides;
                }
            | inl there ↦ elim (Option-cases (image_of openjdkjvm images)) [
              | inl absent ↦ cc (rw absent at (rw there at made))
              | inr (image, held) ↦
                  let made' : pop_boundary images (some image) ≡ ok reviewed =
                    rw held at (rw there at made) in
                  require-elim (is_strong (kind_of get_tls image.imports))
                    "OpenjdkJvm must retain its explicit Bionic TLS boundary" made'
                    λ kind rest.
                      let same : set_image openjdkjvm (popped image) images ≡ reviewed =
                        ok-injective rest in
                      record {
                        bound =
                            changed_images images image held checked found (rw (sym same) at all);
                        retained =
                            λ h. (image, held, strong_kind (kind_of get_tls image.imports) kind);
                        hidden = hides;
                      }
            ]
          ])
