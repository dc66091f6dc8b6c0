-- ===== src/Guest/Tests.antt =====
-- The searches over needed libraries on small sets of images.
use artbox.Base.{ℕ, List, [], ◌∷◌, ok, err, ◌≡◌, ◌⊎◌, ◌↔◌, refl, true}
use artbox.Base.Text.{codes, ◌≟◌}
use artbox.Paths.{contains}
use artbox.Sources.Archive.{starts_with}
use artbox.Guest.Scope.{
  Image, Images, image_of, walk, needs_outside, scope_of, provided_by, missing_of, strong, Scopes,
  check_dependencies,
}
use artbox.Guest.Closed.{Found, Missed, scope_of-decides}
use artbox.Guest.Libcore.{
  openjdkjvm, get_tls, javacore, kind_of, without, set_image, pop_boundary, review, any_export,
  shows_constants, check_hidden, scope_named, check_libcore, precedes, insert_name, sorted,
  same_names, host_imports, check_imports, Imports,
}
use artbox.Guest.Libcore.Boundary.{IsLibcore, check_libcore-IsLibcore}
use artbox.Guest.Libcore.Imports.{IsOpen, check_imports-IsOpen}

-- The C library, which needs nothing, and two libraries that need each other.
abbrev libc : Image
libc = record { needed = []; exports = codes "malloc" ∷ []; imports = [] }

abbrev core : Image
core = record {
  needed = codes "libc.so" ∷ codes "libopenjdkjvm.so" ∷ [];
  exports = codes "JNI_OnLoad" ∷ [];
  imports = (codes "malloc", strong) ∷ (codes "JVM_Now", strong) ∷ (codes "weak", codes "w") ∷ [];
}

abbrev jvm : Image
jvm = record {
  needed = codes "libjavacore.so" ∷ [];
  exports = codes "JVM_Now" ∷ [];
  imports = (get_tls, strong) ∷ (codes "malloc", strong) ∷ [];
}

abbrev images : Images
images = (codes "libc.so", libc) ∷ (javacore, core) ∷ (openjdkjvm, jvm) ∷ []

abbrev checked : List (List ℕ)
checked = openjdkjvm ∷ javacore ∷ []

abbrev scopes : Scopes
scopes =
    (openjdkjvm, openjdkjvm ∷ javacore ∷ codes "libc.so" ∷ [])
    ∷ (javacore, javacore ∷ codes "libc.so" ∷ openjdkjvm ∷ [])
    ∷ []

missed_test : scope_of ((javacore, core) ∷ []) javacore ≡ err "Missing DT_NEEDED library"
unfolding scope_of walk needs_outside image_of contains ◌≟◌
missed_test = refl

open_test : check_dependencies images (openjdkjvm ∷ []) ≡ err "Unresolved strong imports"
unfolding check_dependencies missing_of provided_by scope_of walk needs_outside image_of contains
    ◌≟◌
open_test = refl

libcore_test : check_libcore images checked ≡ ok scopes
unfolding check_libcore review pop_boundary kind_of without set_image check_dependencies missing_of
    provided_by scope_of walk needs_outside image_of contains ◌≟◌ check_hidden shows_constants
    any_export scope_named starts_with
libcore_test = refl

check_libcore-IsLibcore_example : IsLibcore images checked scopes
check_libcore-IsLibcore_example = check_libcore-IsLibcore images checked scopes libcore_test

scope_of-decides_example : Found images javacore ⊎ Missed images javacore
scope_of-decides_example = scope_of-decides images javacore

core_test :
    check_dependencies images (javacore ∷ [])
    ≡ ok ((javacore, javacore ∷ codes "libc.so" ∷ openjdkjvm ∷ []) ∷ [])
unfolding check_dependencies missing_of provided_by scope_of walk needs_outside image_of contains
    ◌≟◌
core_test = refl

abbrev art_imports : Imports
art_imports =
    (codes "artbox_vm_page_size", strong)
    ∷ (codes "artbox_vm_reserve_window", strong)
    ∷ (codes "malloc", strong)
    ∷ (codes "artbox_vm_reserved_bytes", strong)
    ∷ (codes "artbox_bionic_get_tls", strong)
    ∷ (codes "artbox_vm_access", strong)
    ∷ (codes "artbox_vm_mmap_window", strong)
    ∷ (codes "artbox_vm_mprotect", strong)
    ∷ (codes "artbox_vm_munmap", strong)
    ∷ []

imports_test : check_imports art_imports (codes "malloc" ∷ []) ≡ ok host_imports
unfolding check_imports sorted insert_name precedes same_names missing_of contains ◌≟◌
imports_test = refl

check_imports-IsOpen_example :
    (contains (codes "artbox_vm_access") host_imports ≡ true)
    ↔ IsOpen (codes "malloc" ∷ []) (codes "artbox_vm_access") art_imports
check_imports-IsOpen_example =
    check_imports-IsOpen art_imports (codes "malloc" ∷ []) host_imports imports_test
      (codes "artbox_vm_access")
