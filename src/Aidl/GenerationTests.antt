-- ===== src/Aidl/GenerationTests.antt =====
-- scripts/binder_aidl.py: `generate` with a compiler that writes one byte into each expected file.
use artbox.Base.{ℕ, true, none, List, [], ◌∷◌, Result, ok, ◌≡◌, refl, if◌then◌else◌}
use artbox.Base.Int.{pos}
use artbox.Base.Text.{codes, ◌≟◌}
use artbox.Paths.{contains, join}
use artbox.Sources.Selection.{all_in}
use artbox.Tree.{Tree, file_at, paths_of, write_file}
use artbox.Guest.Libcore.{sorted, insert_name, precedes}
use artbox.Shell.{◌>>=◌, Command, begins_with, has_text}
use artbox.Aidl.Generate.{
  each_between, without_first, expected_files, Output, all_filled, Digests, same_digests,
  Generation, digests_at, generated_files, compile_aidl, compile_round, reject_invalid,
  keep_generated, generate,
}
use artbox.Aidl.Rounds.{IsGenerated, generate-IsGenerated}

abbrev digest : List ℕ → List ℕ
digest contents = codes "d"

abbrev one_byte : List (List ℕ) → Tree
one_byte [] = []
one_byte (n ∷ ns) = (n, 1 ∷ []) ∷ one_byte ns

abbrev written : Output
written = record {
  ran = record { code = pos 0; out = []; errors = [] };
  files = one_byte expected_files;
  links = [];
}

abbrev refused : Output
refused = record {
  ran = record { code = pos 1; out = []; errors = codes "ERROR: 1" };
  files = [];
  links = [];
}

abbrev respond : Generation → List ℕ → Command → Result Output
respond s directory words = ok (if directory ≟ codes "aidl" then written else refused)

abbrev start : Generation
start = record { asked = []; log = codes "old"; recorded = true; staged = []; generated = none }

abbrev run : Generation × Result Digests
run = generate digest respond (codes "aidl-bin") (codes "aidl") (codes "t") start

abbrev first_digests : Digests
first_digests =
    digests_at digest (sorted (paths_of (one_byte expected_files))) (one_byte expected_files)

generated : run ≡ (run.0, ok first_digests)
unfolding generate ◌>>=◌ compile_round compile_aidl ◌≟◌ generated_files all_in expected_files
    each_between without_first contains paths_of all_filled digests_at sorted insert_name precedes
    file_at same_digests reject_invalid has_text begins_with keep_generated join write_file
generated = refl

generate-IsGenerated_example :
    IsGenerated digest respond
      (codes "aidl-bin")
      (codes "aidl")
      (codes "t")
      start
      run.0
      first_digests
generate-IsGenerated_example =
    generate-IsGenerated digest respond (codes "aidl-bin") (codes "aidl") (codes "t") start run.0
      first_digests generated
