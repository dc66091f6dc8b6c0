-- ===== src/Report/Produced.antt =====
-- scripts/kernel_config_guest.py: what holds of a build and a Linux reference that are accepted.
use artbox.Base.{
  ℕ, true, false, Option, String, List, Result, ok, ◌>>=◌, ◌≡◌, sym, >>=-elim, require-elim,
  require-true, ok-injective,
}
use artbox.Base.Text.{codes}
use artbox.Paths.{join}
use artbox.Report.Value.{
  Value, text, boolean, Fields, no_fields, field, item_of, get_of, is_text, same_value,
}
use artbox.Report.Checks.{◌and_then◌, check, item_false, item_is}
use artbox.Report.Service.{flag, is_exactly, set_of, same_set}
use artbox.Report.Served.{is_exactly-eq}
use artbox.Report.Passed.{and_then-true, check-true, item_false-eq}
use artbox.Report.Signed.{
  values_of, same_entry, verify_kernel_reference, kernel_objects, is_digest, verify_input,
  verify_inputs, finish_kernel_build, verify_kernel_build,
}
use artbox.Report.Owned.{IsContract, verify_contract-IsContract}

-- Two entries that are there and equal.
abbrev pub AreSame : Value → String → Value → String → Type 0
AreSame reference own build key =
    (a : Value) × (b : Value) × (get_of reference (codes own) ≡ ok a)
    × (item_of build (codes key) ≡ ok b)
    × (same_value a b ≡ true)

same_entry-AreSame :
    (reference : Value) (own : String) (build : Value) (key : String)
    → same_entry reference own build key ≡ ok true
    → AreSame reference own build key
same_entry-AreSame reference own build key e =
    >>=-elim (get_of reference (codes own)) e λ a first e₁.
      >>=-elim (item_of build (codes key)) e₁ λ b second is. (a, b, first, second, ok-injective is)

-- The reference was run, names what the build names, and met the contract.
pub record IsReference (reference build : Value) (build_sha256 : List ℕ) : Type 0 where
  pub executed : get_of reference (codes "native_linux_execution_verified") ≡ ok (boolean true)
  pub commit : AreSame reference "project_commit" build "project_commit"
  pub result :
      (v : Value) × (get_of reference (codes "build_result_sha256") ≡ ok v)
      × (is_text build_sha256 v ≡ true)
  pub objects : AreSame reference "objects" build "objects"
  pub caller : AreSame reference "reference_sha256" build "reference_sha256"
  pub sources : AreSame reference "source_bundle_sha256" build "source_bundle_sha256"
  pub contract :
      (exit : Value) × (native : Value) × (get_of reference (codes "exit") ≡ ok exit)
      × (get_of reference (codes "native") ≡ ok native)
      × IsContract exit native

verify_kernel_reference-IsReference :
    (reference build : Value) (build_sha256 : List ℕ)
    → verify_kernel_reference reference build build_sha256 ≡ ok tt
    → IsReference reference build build_sha256
unfolding verify_kernel_reference
verify_kernel_reference-IsReference reference build build_sha256 e =
    >>=-elim
      (check
        ((get_of reference (codes "native_linux_execution_verified") >>= λ v.
            ok (is_exactly v (flag true)))
          and_then (same_entry reference "project_commit" build "project_commit"
              and_then ((get_of reference (codes "build_result_sha256") >>= λ v.
                    ok (is_text build_sha256 v))
                  and_then (same_entry reference "objects" build "objects"
                      and_then (same_entry reference "reference_sha256" build "reference_sha256"
                          and_then same_entry reference "source_bundle_sha256" build
                              "source_bundle_sha256")))))
        "Signed parser requires execution of the identical Linux caller and dependencies")
      e
      λ _ checked e₁. >>=-elim (get_of reference (codes "exit")) e₁ λ exit exited e₂.
        >>=-elim (get_of reference (codes "native")) e₂ λ native reported e₃.
          let (a, r₁) = and_then-true _ _ (check-true _ _ checked) in
          let (b, r₂) = and_then-true _ _ r₁ in
          let (c, r₃) = and_then-true _ _ r₂ in
          let (d, r₄) = and_then-true _ _ r₃ in
          let (f, g) = and_then-true _ _ r₄ in
          record {
            executed =
                >>=-elim (get_of reference (codes "native_linux_execution_verified")) a
                  λ v read is. rw (is_exactly-eq v (flag true) (ok-injective is)) at read;
            commit = same_entry-AreSame reference "project_commit" build "project_commit" b;
            result =
                >>=-elim (get_of reference (codes "build_result_sha256")) c
                  λ v read is. (v, read, ok-injective is);
            objects = same_entry-AreSame reference "objects" build "objects" d;
            caller = same_entry-AreSame reference "reference_sha256" build "reference_sha256" f;
            sources =
                same_entry-AreSame reference "source_bundle_sha256" build "source_bundle_sha256" g;
            contract = (exit, native, exited, reported, verify_contract-IsContract exit native e₃);
          }

module _ (digest_of : List ℕ → Option (List ℕ)) where
  -- Every file of a dict has the digest that the dict gives.
  abbrev pub AllVerified : List ℕ → Fields → Type 0
  AllVerified directory no_fields = Unit {0}
  AllVerified directory (field name expected rest) =
      (is_digest digest_of (digest_of (join directory name)) expected ≡ true)
      × AllVerified directory rest

  verify_inputs-AllVerified :
      (directory : List ℕ) (entries : Fields)
      → verify_inputs digest_of directory entries ≡ ok tt
      → AllVerified directory entries
  unfolding verify_inputs verify_input
  verify_inputs-AllVerified directory no_fields e = tt
  verify_inputs-AllVerified directory (field name expected rest) e =
      require-elim (is_digest digest_of (digest_of (join directory name)) expected)
        "Kernel-config input differs from its producer" e
        λ same e₁. (same, verify_inputs-AllVerified directory rest e₁)

  module _ (read : List ℕ → Result Value) (root directory revision : List ℕ) where
    -- The build is of this revision and clean, and every file that it names has its digest.
    pub record IsBuilt (build : Value) : Type 0 where
      pub stored : read (join directory (codes "result.json")) ≡ ok build
      pub commit :
          (v : Value) × (item_of build (codes "project_commit") ≡ ok v)
          × (same_value v (text revision) ≡ true)
      pub clean : item_of build (codes "working_tree_dirty") ≡ ok (boolean false)
      pub sources :
          (v : Value) × (entries : Fields) × (item_of build (codes "project_sources") ≡ ok v)
          × (values_of v ≡ ok entries)
          × AllVerified root entries
      pub objects :
          (v : Value) × (entries : Fields) × (item_of build (codes "objects") ≡ ok v)
          × (values_of v ≡ ok entries)
          × AllVerified directory entries
      pub caller :
          (v : Value) × (item_of build (codes "reference_sha256") ≡ ok v)
          × (is_digest digest_of (digest_of (join directory (codes "linux-reference"))) v ≡ true)
      pub bundle :
          (v : Value) × (item_of build (codes "source_bundle_sha256") ≡ ok v)
          × (is_digest digest_of (digest_of (join directory (codes "corresponding-source.zip"))) v
              ≡ true)

    verify_input-true :
        (path : List ℕ) (expected : Value)
        → verify_input digest_of path expected ≡ ok tt
        → is_digest digest_of (digest_of path) expected ≡ true
    unfolding verify_input
    verify_input-true path expected e =
        require-true (is_digest digest_of (digest_of path) expected)
          "Kernel-config input differs from its producer" e

    -- The checks after the loops.
    returned :
        (build objects found : Value)
        → finish_kernel_build digest_of directory build objects ≡ ok found
        → (build ≡ found)
          × ((v : Value) × (item_of build (codes "reference_sha256") ≡ ok v)
              × (is_digest digest_of (digest_of (join directory (codes "linux-reference"))) v
                  ≡ true))
          × ((v : Value) × (item_of build (codes "source_bundle_sha256") ≡ ok v)
              × (is_digest digest_of
                    (digest_of (join directory (codes "corresponding-source.zip")))
                    v
                  ≡ true))
    unfolding finish_kernel_build
    returned build objects found e =
        >>=-elim (item_of objects (codes "regex.cpp.o")) e λ member _ e₁.
          >>=-elim (item_of build (codes "regex_runtime")) e₁ λ runtime _ e₂.
            >>=-elim (item_of runtime (codes "member_sha256")) e₂ λ pinned _ e₃.
              require-elim (same_value member pinned)
                "Parser regex object differs from reviewed archive member" e₃
                λ _ e₄. >>=-elim (item_of build (codes "reference_sha256")) e₄ λ caller c₁ e₅.
                  >>=-elim
                    (verify_input digest_of (join directory (codes "linux-reference")) caller) e₅
                    λ _ c₂ e₆.
                      >>=-elim (item_of build (codes "source_bundle_sha256")) e₆ λ bundle b₁ e₇.
                        >>=-elim
                          (verify_input digest_of
                            (join directory (codes "corresponding-source.zip")) bundle)
                          e₇
                          λ _ b₂ e₈. (
                            ok-injective e₈,
                            (
                              caller,
                              c₁,
                              verify_input-true (join directory (codes "linux-reference")) caller
                                  c₂,
                            ),
                            (
                              bundle,
                              b₁,
                              verify_input-true (join directory (codes "corresponding-source.zip"))
                                  bundle b₂,
                            ),
                          )

    verify_kernel_build-IsBuilt :
        (build : Value)
        → verify_kernel_build digest_of read root directory revision ≡ ok build
        → IsBuilt build
    unfolding verify_kernel_build
    verify_kernel_build-IsBuilt found e =
        >>=-elim (read (join directory (codes "result.json"))) e λ build stored e₁.
          >>=-elim
            (check
              (item_is build (codes "project_commit") (text revision)
                and_then (item_false build (codes "working_tree_dirty")
                    and_then ((item_of build (codes "objects") >>= λ v.
                          set_of v >>= λ names. ok (same_set kernel_objects names))
                        and_then (item_of build (codes "regex_runtime") >>= λ v.
                            read (join root (codes "third_party/binder/regex-runtime.json"))
                            >>= λ pin. ok (same_value v pin)))))
              "Require the current clean Android parser and pinned regex object")
            e₁
            λ _ checked e₂.
              let (first, r₁) = and_then-true _ _ (check-true _ _ checked) in
              let (second, r₂) = and_then-true _ _ r₁ in
              >>=-elim (item_of build (codes "project_sources") >>= values_of) e₂ λ sources s₁ e₃.
                >>=-elim (verify_inputs digest_of root sources) e₃ λ _ s₂ e₄.
                  >>=-elim (item_of build (codes "objects")) e₄ λ objects s₃ e₅.
                    >>=-elim (values_of objects) e₅ λ entries s₄ e₆.
                      >>=-elim (verify_inputs digest_of directory entries) e₆ λ _ s₅ e₇.
                        rw (sym (returned build objects found e₇).0) (record {
                          stored = stored;
                          commit =
                              >>=-elim (item_of build (codes "project_commit")) first
                                λ v is same. (v, is, ok-injective same);
                          clean = item_false-eq build (codes "working_tree_dirty") second;
                          sources =
                              >>=-elim (item_of build (codes "project_sources")) s₁ λ v is values.
                                (v, sources, is, values, verify_inputs-AllVerified root sources s₂);
                          objects = (
                            objects,
                            entries,
                            s₃,
                            s₄,
                            verify_inputs-AllVerified directory entries s₅,
                          );
                          caller = (returned build objects found e₇).1;
                          bundle = (returned build objects found e₇).2;
                        })

    -- If `verify_build` returns a build and `verify_reference` accepts a reference for it, then
    -- the build is the stored one, of the revision and from a clean tree, and each of its
    -- project sources, its objects, its Linux caller and its source bundle has the digest that
    -- it gives; the reference was executed on Linux, names the same commit, objects, caller and
    -- bundle and the digest of the build, and its run met the parser's contract.
    pub verified_kernel_build :
        (build reference : Value) (build_sha256 : List ℕ)
        → verify_kernel_build digest_of read root directory revision ≡ ok build
        → verify_kernel_reference reference build build_sha256 ≡ ok tt
        → IsBuilt build × IsReference reference build build_sha256
    verified_kernel_build build reference build_sha256 built referred = (
      verify_kernel_build-IsBuilt build built,
      verify_kernel_reference-IsReference reference build build_sha256 referred,
    )
