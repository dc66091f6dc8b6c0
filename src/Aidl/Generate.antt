-- ===== src/Aidl/Generate.antt =====
-- scripts/binder_aidl.py: `generate`, which runs the pinned compiler twice, compares what it wrote,
-- tries two malformed inputs and keeps the result. What the compiler answers and writes is a
-- parameter.
use artbox.Base.{
  ℕ, ◌&&◌, ◌||◌, not, if◌then◌else◌, Bool, true, false, Option, none, some, String, List, [], ◌∷◌,
  ◌++◌, drop, Result, ok, err,
}
use artbox.Base.Int.{pos, ltb_ℤ}
use artbox.Base.Text.{codes, ◌≟◌}
use artbox.Paths.{is_nil, join}
use artbox.Sources.Selection.{all_in}
use artbox.Tree.{Tree, file_at, paths_of, write_file}
use artbox.Guest.Libcore.{sorted}
use artbox.Shell.{Act, ◌>>=◌, ◌>>◌, give, demand, change, Ran, Command, is_zero, has_text}

-- `INTERFACES` and `PARCELABLES`
abbrev pub interfaces : List (List ℕ)
interfaces = codes "IServiceManager" ∷ codes "IServiceCallback" ∷ codes "IClientCallback" ∷ []

abbrev pub parcelables : List (List ℕ)
parcelables = codes "ConnectionInfo" ∷ codes "ServiceDebugInfo" ∷ []

unfoldable pub each_between : String → String → List (List ℕ) → List (List ℕ)
each_between prefix suffix [] = []
each_between prefix suffix (n ∷ ns) =
    (codes prefix ++ (n ++ codes suffix)) ∷ each_between prefix suffix ns

unfoldable pub without_first : List (List ℕ) → List (List ℕ)
without_first [] = []
without_first (n ∷ ns) = drop 1 n ∷ without_first ns

-- `expected`
unfoldable pub expected_files : List (List ℕ)
expected_files =
    let all = interfaces ++ parcelables in
    each_between "src/android/os/" ".cpp" all
    ++ (each_between "include/android/os/" ".h" all
        ++ (each_between "include/android/os/Bn" ".h" (without_first interfaces ++ parcelables)
            ++ each_between "include/android/os/Bp" ".h" (without_first interfaces ++ parcelables)))

-- What the compiler wrote: files with their bytes, and the paths that are symbolic links.
pub record Output : Type 0 where
  pub ran : Ran
  pub files : Tree
  pub links : List (List ℕ)

unfoldable pub all_filled : Tree → Bool
all_filled [] = true
all_filled (f ∷ fs) = not (is_nil f.1) && all_filled fs

abbrev pub Digests : Type 0
Digests = List (List ℕ × List ℕ)

unfoldable pub same_digests : Digests → Digests → Bool
same_digests [] [] = true
same_digests [] (e ∷ es) = false
same_digests (d ∷ ds) [] = false
same_digests (d ∷ ds) (e ∷ es) = (d.0 ≟ e.0 && d.1 ≟ e.1) && same_digests ds es

-- What was asked of the compiler, the newest first, each with its working directory;
-- `compiler.log`; whether `generation.json` is there; the malformed inputs in the staging directory;
-- and the directory `generated`.
pub record Generation : Type 0 where
  pub asked : List (List ℕ × Command × Result Output)
  pub log : List ℕ
  pub recorded : Bool
  pub staged : Tree
  pub generated : Option (Tree × List (List ℕ))

-- The state after an answered run of the compiler.
abbrev pub noted : List ℕ → Command → Output → Generation → Generation
noted directory words output s = record s {
  asked = (directory, words, ok output) ∷ s.asked;
  log = s.log ++ (output.ran.out ++ output.ran.errors);
}

-- The texts of the malformed inputs.
abbrev pub unclosed_text : List ℕ
unclosed_text = codes "package android.os; interface IInvalid { void broken( ; }"

abbrev pub missing_type_text : List ℕ
missing_type_text = codes "package android.os; interface IInvalid { MissingType broken(); }"

-- The arguments of the compiler.
abbrev pub compiler_words : List ℕ → List ℕ → List (List ℕ) → Command
compiler_words executable destination inputs =
    executable
    ∷ codes "--lang=cpp"
    ∷ codes "--structured"
    ∷ codes "--min_sdk_version=29"
    ∷ codes "--omit_invocation"
    ∷ (codes "--out=" ++ join destination (codes "src"))
    ∷ (codes "--header_out=" ++ join destination (codes "include"))
    ∷ codes "-I"
    ∷ codes "."
    ∷ inputs

abbrev pub logged : List ℕ → Command → Generation → Result Output → Generation × Result Output
logged directory words s (err message) =
    (record s { asked = (directory, words, err message) ∷ s.asked }, err message)
logged directory words s (ok output) = (noted directory words output s, ok output)

abbrev pub all_inputs : List (List ℕ)
all_inputs = each_between "android/os/" ".aidl" (interfaces ++ parcelables)

abbrev pub invalid_input : List ℕ
invalid_input = codes "android/os/IInvalid.aidl"

abbrev pub is_rejected : Output → Bool
is_rejected output =
    ltb_ℤ (pos 0) output.ran.code && has_text (codes "ERROR:") (output.ran.out ++ output.ran.errors)

abbrev pub stage_invalid : List ℕ → List ℕ → Generation → Generation
stage_invalid invalid text s = record s {
  staged = write_file (join invalid invalid_input) text s.staged;
}

abbrev pub cleared : Generation → Generation
cleared s = record s { log = []; recorded = false }

module _ (digest : List ℕ → List ℕ) where
  abbrev pub digest_at : List ℕ → Option (List ℕ) → Digests → Digests
  digest_at name none rest = rest
  digest_at name (some contents) rest = (name, digest contents) ∷ rest

  unfoldable pub digests_at : List (List ℕ) → Tree → Digests
  digests_at [] files = []
  digests_at (n ∷ ns) files = digest_at n (file_at n files) (digests_at ns files)

  -- `generated_files`
  unfoldable pub generated_files : Tree → List (List ℕ) → Result Digests
  generated_files files links =
      if not (
          all_in expected_files (paths_of files ++ links)
          && all_in (paths_of files ++ links) expected_files)
        || not (is_nil links)
        || not (all_filled files)
      then err "Generated Binder file set differs"
      else ok (digests_at (sorted (paths_of files)) files)

  abbrev pub keep_into :
      Output → Digests → Option (Tree × List (List ℕ)) → Act Generation (Unit {0})
  keep_into output first none =
      change λ (s : Generation). record s { generated = some (output.files, output.links) }
  keep_into output first (some old) = do
    found ← give (generated_files old.0 old.1)
    demand (same_digests found first)
        "Existing generated bindings differ; use a fresh --output directory"

  -- `if generated.exists()`
  unfoldable pub keep_generated : Output → Digests → Act Generation (Unit {0})
  keep_generated output first s = keep_into output first s.generated s

  module _ (respond : Generation → List ℕ → Command → Result Output) (executable : List ℕ) where
    -- `compile_aidl`
    unfoldable pub compile_aidl : List ℕ → List ℕ → List (List ℕ) → Act Generation Output
    compile_aidl source destination inputs s =
        logged source (compiler_words executable destination inputs) s
          (respond s source (compiler_words executable destination inputs))

    -- A round of the loop over `first` and `second`.
    unfoldable pub compile_round : List ℕ → List ℕ → Act Generation Output
    compile_round source destination = do
      output ← compile_aidl source destination all_inputs
      demand (is_zero output.ran.code) "CalledProcessError"
      give (ok output)

    -- A malformed input, which the compiler must reject.
    unfoldable pub reject_invalid : List ℕ → List ℕ → List ℕ → Act Generation (Unit {0})
    reject_invalid invalid destination text = do
      change (stage_invalid invalid text)
      output ← compile_aidl invalid destination (invalid_input ∷ [])
      demand (is_rejected output)
          "AIDL compiler did not reject the malformed input with a diagnostic"

    -- `generate` with the staging directory.
    unfoldable pub generate : List ℕ → List ℕ → Act Generation Digests
    generate source stage = do
      change cleared
      one ← compile_round source (join stage (codes "first"))
      two ← compile_round source (join stage (codes "second"))
      first ← give (generated_files one.files one.links)
      second ← give (generated_files two.files two.links)
      demand (same_digests second first) "AIDL output changes with the generation directory"
      reject_invalid (join stage (codes "invalid-0")) (join stage (codes "rejected-0"))
          unclosed_text
      reject_invalid (join stage (codes "invalid-1")) (join stage (codes "rejected-1"))
          missing_type_text
      keep_generated one first
      give (ok first)
