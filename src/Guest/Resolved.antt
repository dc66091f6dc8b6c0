-- ===== src/Guest/Resolved.antt =====
-- scripts/icu_guest_link.py: `check_dependencies` leaves no strong import of a checked image open.
use artbox.Base.{
  ℕ, ◌&&◌, not, Bool, true, false, Option, none, some, List, [], ◌∷◌, ok, ◌≡◌, inl, inr, refl, sym,
  arith, Bool-cases, >>=-elim, require-elim, ok-injective,
}
use artbox.Base.Text.{◌≟◌}
use artbox.Paths.{is_nil, contains}
use artbox.Paths.Laws.{Every}
use artbox.Guest.Scope.{
  Image, Images, image_of, image_or, scope_of, provided_by, exports_or, strong, missing_of, Scopes,
  check_dependencies,
}
use artbox.Guest.Closed.{In, In-append, In-head, In-tail, IsScope, scope_of-IsScope}

-- Some image of a scope exports a symbol.
pub record IsProvided (images : Images) (scope : List (List ℕ)) (symbol : List ℕ) : Type 0 where
  pub item : List ℕ
  pub within : In item scope
  pub image : Image
  pub held : image_of item images ≡ some image
  pub exported : In symbol image.exports

exported_by :
    (o : Option Image) (symbol : List ℕ)
    → In symbol (exports_or o)
    → (image : Image) × (o ≡ some image) × In symbol image.exports
unfolding contains
exported_by none symbol h = cc
exported_by (some image) symbol h = (image, refl, h)

provided_by-IsProvided :
    (images : Images) (scope : List (List ℕ)) (symbol : List ℕ)
    → In symbol (provided_by images scope)
    → IsProvided images scope symbol
unfolding provided_by
provided_by-IsProvided images [] symbol h = unfold contains in cc
provided_by-IsProvided images (item ∷ items) symbol h =
    elim (In-append symbol (exports_or (image_of item images)) (provided_by images items) h) [
      | inl here ↦
          let (image, held, exported) = exported_by (image_of item images) symbol here in
          record {
            item = item;
            within = In-head item items;
            image = image;
            held = held;
            exported = exported;
          }
      | inr later ↦
          let rest = provided_by-IsProvided images items symbol later in
          record {
            item = rest.item;
            within = In-tail rest.item item items rest.within;
            image = rest.image;
            held = rest.held;
            exported = rest.exported;
          }
    ]

-- A strong import has an image that provides it.
abbrev pub IsResolved : Images → List (List ℕ) → List ℕ × List ℕ → Type 0
IsResolved images scope i = (i.1 ≟ strong) ≡ true → IsProvided images scope i.0

provided_of : (a b : Bool) → a ≡ true → (a && not b) ≡ false → b ≡ true
provided_of a b h e = ground arith

missing_of-none :
    (images : Images) (scope : List (List ℕ)) (imports : List (List ℕ × List ℕ))
    → is_nil (missing_of (provided_by images scope) imports) ≡ true
    → Every (IsResolved images scope) imports
unfolding missing_of
missing_of-none images scope [] h = tt
missing_of-none images scope (i ∷ is) h =
    elim (Bool-cases (i.1 ≟ strong && not (contains i.0 (provided_by images scope)))) [
      | inl open_import ↦ cc (rw open_import at h)
      | inr fine ↦ (
        (λ needed.
            provided_by-IsProvided images scope i.0
              (provided_of (i.1 ≟ strong) (contains i.0 (provided_by images scope)) needed fine)),
        missing_of-none images scope is (rw fine at h),
      )
    ]

-- What `check_dependencies` promises of a name and its entry of `scopes`.
pub record IsChecked (images : Images) (name : List ℕ) (entry : List ℕ × List (List ℕ))
    : Type 0 where
  pub named : entry.0 ≡ name
  pub scope : IsScope images name entry.1
  pub image : Image
  pub held : image_of name images ≡ some image
  pub resolved : Every (IsResolved images entry.1) image.imports

abbrev pub AllChecked : Images → List (List ℕ) → Scopes → Type 0
AllChecked images [] [] = Unit
AllChecked images [] (e ∷ es) = ⊥
AllChecked images (n ∷ ns) [] = ⊥
AllChecked images (n ∷ ns) (e ∷ es) = IsChecked images n e × AllChecked images ns es

image_or-held : (o : Option Image) (image : Image) → image_or o ≡ ok image → o ≡ some image
image_or-held none image e = cc
image_or-held (some i) image e = cc

-- When `check_dependencies` of ICU returns, each checked name in order has the scope of exactly
-- what it reaches, each once and present, and every strong import of it is exported by an image
-- of that scope.
pub check_dependencies-AllChecked :
    (images : Images) (names : List (List ℕ)) (scopes : Scopes)
    → check_dependencies images names ≡ ok scopes
    → AllChecked images names scopes
unfolding check_dependencies
check_dependencies-AllChecked images [] scopes e = rw (sym (ok-injective e)) tt
check_dependencies-AllChecked images (name ∷ names) scopes e =
    >>=-elim (scope_of images name) e λ scope searched e₁.
      >>=-elim (image_or (image_of name images)) e₁ λ image held e₂.
        require-elim (is_nil (missing_of (provided_by images scope) image.imports))
          "Unresolved strong imports" e₂
          λ closed e₃. >>=-elim (check_dependencies images names) e₃ λ rest others e₄.
            rw (sym (ok-injective e₄)) (
              record {
                named = refl;
                scope = scope_of-IsScope images name scope searched;
                image = image;
                held = image_or-held (image_of name images) image held;
                resolved = missing_of-none images scope image.imports closed;
              },
              check_dependencies-AllChecked images names rest others,
            )
