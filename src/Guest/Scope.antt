-- ===== src/Guest/Scope.antt =====
-- scripts/icu_guest_link.py: `check_dependencies`, the breadth-first search over `DT_NEEDED` and the
-- check of the strong imports.
use artbox.Base.{
  ℕ, zero, suc, ◌+◌, ◌&&◌, not, if◌then◌else◌, true, false, Option, none, some, List, [], ◌∷◌, ◌++◌,
  length, Result, ok, err, require, ◌>>=◌, ◌>>◌,
}
use artbox.Base.Text.{◌≟◌}
use artbox.Paths.{is_nil, contains}

-- What the code reads of an image; an import is a symbol with its kind.
pub record Image : Type 0 where
  pub needed : List (List ℕ)
  pub exports : List (List ℕ)
  pub imports : List (List ℕ × List ℕ)

abbrev pub Images : Type 0
Images = List (List ℕ × Image)

-- `images.get(name)`
unfoldable pub image_of : List ℕ → Images → Option Image
image_of name [] = none
image_of name (e ∷ es) = let rest = image_of name es in if name ≟ e.0 then some e.1 else rest

-- `images[name]`
abbrev pub image_or : Option Image → Result Image
image_or none = err "Missing DT_NEEDED library"
image_or (some image) = ok image

-- `while pending`, for a number of rounds at most.
unfoldable pub walk : ℕ → Images → List (List ℕ) → List (List ℕ) → Result (List (List ℕ))
walk rounds images [] scope = ok scope
walk zero images (current ∷ pending) scope = err "no rounds left"
walk (suc rounds) images (current ∷ pending) scope = elim (contains current scope) [
  | true ↦ walk rounds images pending scope
  | false ↦ do
    image ← image_or (image_of current images)
    walk rounds images (pending ++ image.needed) (scope ++ current ∷ [])
]

-- The needed libraries of the images that are not in a scope.
unfoldable pub needs_outside : List (List ℕ) → Images → ℕ
needs_outside scope [] = 0
needs_outside scope (e ∷ es) =
    (if contains e.0 scope then 0 else length e.1.needed) + needs_outside scope es

-- The loop from `pending, scope = [name], []` on; each image is entered once, and each library that
-- one needs is taken from `pending` once.
unfoldable pub scope_of : Images → List ℕ → Result (List (List ℕ))
scope_of images name = walk (suc (needs_outside [] images)) images (name ∷ []) []

-- `set().union(*(set(images[item]['exports']) for item in scope))`
abbrev pub exports_or : Option Image → List (List ℕ)
exports_or none = []
exports_or (some image) = image.exports

unfoldable pub provided_by : Images → List (List ℕ) → List (List ℕ)
provided_by images [] = []
provided_by images (item ∷ items) = exports_or (image_of item images) ++ provided_by images items

abbrev pub strong : List ℕ
strong = 85 ∷ []

-- `missing`, before it is sorted.
unfoldable pub missing_of : List (List ℕ) → List (List ℕ × List ℕ) → List (List ℕ)
missing_of provided [] = []
missing_of provided (i ∷ is) =
    let rest = missing_of provided is in
    if i.1 ≟ strong && not (contains i.0 provided) then i.0 ∷ rest else rest

abbrev pub Scopes : Type 0
Scopes = List (List ℕ × List (List ℕ))

-- `for name in checked`, in its order; a name that is checked twice has one scope both times.
unfoldable pub check_dependencies : Images → List (List ℕ) → Result Scopes
check_dependencies images [] = ok []
check_dependencies images (name ∷ names) = do
  scope ← scope_of images name
  image ← image_or (image_of name images)
  require (is_nil (missing_of (provided_by images scope) image.imports)) "Unresolved strong imports"
  rest ← check_dependencies images names
  ok ((name, scope) ∷ rest)
