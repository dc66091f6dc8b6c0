-- ===== src/Adapt/Storage.antt =====
-- scripts/art_reference_adapt.py, art_storage_adapt.py, art_managed_adapt.py and art_runtime_policy.py:
-- the reviewed edits of the header of ART references, by itself and with the edits of a boundary, and
-- the optional demangler. SHA-256 and JSON text are parameters.
pub mod Stored
mod Tests
use artbox.Base.{
  ℕ, ◌==◌, ◌&&◌, Bool, String, List, [], ◌∷◌, ◌++◌, Result, ok, err, require, ◌>>=◌, ◌>>◌,
}
use artbox.Base.Text.{codes, ◌≟◌}
use artbox.Base.Utf8.{decode, encode}
use artbox.Tree.{Tree}
use artbox.Adapt.Replace.{count, replace_first, replace_unique}
use artbox.Adapt.Bionic.{Replacement, Edit}
use artbox.Adapt.Host.{Item, HostRecord, host_sources}

-- `SOURCE` and `SHA256`
abbrev pub reference_path : List ℕ
reference_path = codes "runtime/mirror/object_reference.h"

abbrev pub reference_sha256 : List ℕ
reference_sha256 = codes "cb97ef1a4c0ffab7ab4cf6ba1185e26bb757e06abdcf7998baf291e7f34e5bae"

-- `REPLACEMENTS`
abbrev pub reference_replacements : List Replacement
reference_replacements =
    (
      codes "#include \"base/atomic.h\"",
      codes "// ARTBox: heap-base-relative references for the signed native contract.\n"
          ++ (codes "#include \"artbox_art_reference_bridge.h\"\n\n"
              ++ codes "#include \"base/atomic.h\""),
    )
    ∷ (
      codes "uint32_t as_bits = reinterpret_cast32<uint32_t>(mirror_ptr);",
      codes "uint32_t as_bits = artbox_art_reference_compress(mirror_ptr);",
    )
    ∷ (
      codes "return reinterpret_cast32<MirrorType*>(as_bits);",
      codes "return static_cast<MirrorType*>(artbox_art_reference_decompress(as_bits));",
    )
    ∷ []

-- `for before, after in REPLACEMENTS`; no `before` is empty.
unfoldable pub replace_each : List Replacement → List ℕ → Result (List ℕ)
replace_each [] text = ok text
replace_each (r ∷ rs) text = do
  text' ← replace_unique "ART reference adaptation context is missing or ambiguous" r.0 r.1 text
  replace_each rs text'

-- `adapt`
unfoldable pub adapt_reference : (List ℕ → List ℕ) → List ℕ → Result (List ℕ)
adapt_reference digest original = do
  require (digest original ≟ reference_sha256)
      "ART reference input differs from the reviewed upstream header"
  text ← decode original
  text' ← replace_each reference_replacements text
  encode text'

-- The same as an entry of `patch['files']`.
abbrev pub reference_edit : Edit
reference_edit = record {
  path = reference_path;
  sha256 = reference_sha256;
  replacements = reference_replacements;
}

-- `adapt_storage`
unfoldable pub adapt_storage :
    (List ℕ → List ℕ)
    → (List ℕ → List ℕ)
    → (List ℕ → Bool)
    → (List ℕ → Bool)
    → List (List ℕ)
    → List (List ℕ)
    → Tree
    → Tree
    → List Item
    → List Edit
    → Result (List HostRecord × Tree)
adapt_storage fold digest source_stays output_stays source_path output_path source output selection
      boundary =
    host_sources fold digest source_stays output_stays source_path output_path source output
      selection (reference_edit ∷ boundary)

-- The names of the boundaries in `managed_boundary`.
abbrev pub boundary_names : List (List ℕ)
boundary_names =
    codes "managed-storage-boundary.json"
    ∷ codes "interpreter-arguments-boundary.json"
    ∷ codes "managed-window-boundary.json"
    ∷ codes "class-table-boundary.json"
    ∷ []

unfoldable pub extend_files :
    (List ℕ → Result (List Edit)) → List (List ℕ) → List Edit → Result (List Edit)
extend_files read [] files = ok files
extend_files read (name ∷ names) files = do
  more ← read name
  extend_files read names (files ++ more)

-- `managed_boundary`
unfoldable pub managed_boundary : (List ℕ → Result (List Edit)) → Result (List Edit)
managed_boundary read = extend_files read boundary_names (reference_edit ∷ [])

abbrev pub rust_sha256 : List ℕ
rust_sha256 = codes "48ecc10746919366b620a9bff1c7e6e729e27a952bdf6e5a9ebf11a90f3f1416"

abbrev pub rust_include : List ℕ
rust_include = codes "#include <rustc_demangle.h>"

abbrev pub rust_branch : List ℕ
rust_branch =
    codes "  } else if (name[1] == 'R') {\n    // Try to demangle rust name.\n"
    ++ codes "    demangled_str = rustc_demangle(name.c_str(), nullptr, nullptr, nullptr);"

abbrev pub guarded : List ℕ → List ℕ
guarded text = codes "#if !defined(ARTBOX_NO_RUST_DEMANGLE)\n" ++ (text ++ codes "\n#endif")

abbrev pub guarded_include : List ℕ
guarded_include =
    codes "// ARTBox: keep Rust trace labels verbatim when its demangler is omitted.\n"
    ++ guarded rust_include

-- `without_rust_demangler`, on the bytes of the source.
unfoldable pub without_rust_demangler : (List ℕ → List ℕ) → List ℕ → Result (List ℕ)
without_rust_demangler digest original = do
  require (digest original ≟ rust_sha256)
      "Unwindstack demangler differs from the reviewed upstream source"
  text ← decode original
  require (count rust_include text == 1 && count rust_branch text == 1)
      "Unwindstack demangling context is missing or ambiguous"
  encode (
      replace_first rust_branch (guarded rust_branch)
        (replace_first rust_include guarded_include text))
