-- ===== src/Guest/Libcore.antt =====
-- scripts/libcore_guest_link.py: `check_dependencies`, which lets one import of one library stay open.
-- scripts/art_guest_link.py: `check_imports`, which lets eight imports of ART stay open.
pub mod Same
pub mod Boundary
pub mod Imports
use artbox.Base.{
  ℕ, ltb, ◌==◌, ◌&&◌, ◌||◌, not, if◌then◌else◌, Bool, true, false, Option, none, some, List, [],
  ◌∷◌, ◌++◌, Result, ok, err, require, ◌>>=◌, ◌>>◌,
}
use artbox.Base.Text.{codes, ◌≟◌}
use artbox.Paths.{contains}
use artbox.Sources.Archive.{starts_with}
use artbox.Guest.Scope.{Image, Images, image_of, Scopes, strong, missing_of, check_dependencies}

abbrev pub openjdkjvm : List ℕ
openjdkjvm = codes "libopenjdkjvm.so"

abbrev pub get_tls : List ℕ
get_tls = codes "artbox_bionic_get_tls"

abbrev pub Imports : Type 0
Imports = List (List ℕ × List ℕ)

-- `imports.get(name)`
unfoldable pub kind_of : List ℕ → Imports → Option (List ℕ)
kind_of name [] = none
kind_of name (i ∷ is) = let rest = kind_of name is in if name ≟ i.0 then some i.1 else rest

-- What `imports.pop(name, None)` leaves.
unfoldable pub without : List ℕ → Imports → Imports
without name [] = []
without name (i ∷ is) = let rest = without name is in if name ≟ i.0 then rest else i ∷ rest

abbrev pub is_strong : Option (List ℕ) → Bool
is_strong none = false
is_strong (some kind) = kind ≟ strong

-- `images[name] = image` of a name that is there.
unfoldable pub set_image : List ℕ → Image → Images → Images
set_image name image [] = []
set_image name image (e ∷ es) =
    let rest = set_image name image es in if name ≟ e.0 then (e.0, image) ∷ rest else e ∷ rest

-- `reviewed`, when `libopenjdkjvm.so` is checked.
unfoldable pub pop_boundary : Images → Option Image → Result Images
pop_boundary images none = err "KeyError"
pop_boundary images (some image) = do
  require (is_strong (kind_of get_tls image.imports))
      "OpenjdkJvm must retain its explicit Bionic TLS boundary"
  ok (set_image openjdkjvm (record image { imports = without get_tls image.imports }) images)

unfoldable pub review : Images → List (List ℕ) → Result Images
review images checked =
    if contains openjdkjvm checked
    then pop_boundary images (image_of openjdkjvm images)
    else ok images

abbrev pub jni_constants : List ℕ
jni_constants = codes "_ZN12JniConstants"

unfoldable pub any_export : List (List ℕ) → Bool
any_export [] = false
any_export (symbol ∷ symbols) = starts_with symbol jni_constants || any_export symbols

unfoldable pub shows_constants : Option Image → Result Bool
shows_constants none = err "KeyError"
shows_constants (some image) = ok (any_export image.exports)

-- `for name in scopes.get('libjavacore.so', [])`
unfoldable pub check_hidden : Images → List (List ℕ) → Result (Unit {0})
check_hidden images [] = ok tt
check_hidden images (name ∷ names) = do
  visible ← shows_constants (image_of name images)
  require (not visible) "JniConstants is visible in javacore lookup scope"
  check_hidden images names

-- `scopes.get(name, [])`
unfoldable pub scope_named : List ℕ → Scopes → List (List ℕ)
scope_named name [] = []
scope_named name (s ∷ ss) = let rest = scope_named name ss in if name ≟ s.0 then s.1 else rest

abbrev pub javacore : List ℕ
javacore = codes "libjavacore.so"

unfoldable pub check_libcore : Images → List (List ℕ) → Result Scopes
check_libcore images checked = do
  reviewed ← review images checked
  scopes ← check_dependencies reviewed checked
  check_hidden images (scope_named javacore scopes)
  ok scopes

-- The order of `str`.
unfoldable pub precedes : List ℕ → List ℕ → Bool
precedes [] ys = true
precedes (x ∷ xs) [] = false
precedes (x ∷ xs) (y ∷ ys) = ltb x y || (x == y && precedes xs ys)

-- `sorted(names)`
unfoldable pub insert_name : List ℕ → List (List ℕ) → List (List ℕ)
insert_name x [] = x ∷ []
insert_name x (y ∷ ys) =
    let rest = insert_name x ys in if precedes x y then x ∷ y ∷ ys else y ∷ rest

unfoldable pub sorted : List (List ℕ) → List (List ℕ)
sorted [] = []
sorted (x ∷ xs) = insert_name x (sorted xs)

unfoldable pub same_names : List (List ℕ) → List (List ℕ) → Bool
same_names [] [] = true
same_names [] (y ∷ ys) = false
same_names (x ∷ xs) [] = false
same_names (x ∷ xs) (y ∷ ys) = x ≟ y && same_names xs ys

abbrev pub host_imports : List (List ℕ)
host_imports =
    codes "artbox_bionic_get_tls"
    ∷ codes "artbox_vm_access"
    ∷ codes "artbox_vm_mmap_window"
    ∷ codes "artbox_vm_mprotect"
    ∷ codes "artbox_vm_munmap"
    ∷ codes "artbox_vm_page_size"
    ∷ codes "artbox_vm_reserve_window"
    ∷ codes "artbox_vm_reserved_bytes"
    ∷ []

unfoldable pub check_imports : Imports → List (List ℕ) → Result (List (List ℕ))
check_imports imports dependency_exports = do
  let missing = sorted (missing_of dependency_exports imports)
  require (same_names missing (sorted host_imports))
      "Full ART imports differ from the eight explicit VM/TLS bindings"
  ok missing
