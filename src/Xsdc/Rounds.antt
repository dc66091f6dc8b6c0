-- ===== src/Xsdc/Rounds.antt =====
-- scripts/xsdc.py: the runs of `prepare` in its scratch directory: the compiler of the generator, two
-- generations that are compared, and two that must fail. What a command answers and leaves in its
-- output directory is a parameter.
use artbox.Base.{
  ℕ, ◌==◌, ◌&&◌, not, if◌then◌else◌, Bool, true, false, Option, none, some, List, [], ◌∷◌, ◌++◌,
  Result, ok, err,
}
use artbox.Base.Text.{codes, ◌≟◌}
use artbox.Paths.{is_nil, has_char, join}
use artbox.Sources.Selection.{all_in}
use artbox.Tree.{file_at, write_file, paths_of}
use artbox.Tree.Disk.{Disk}
use artbox.Shell.{Act, ◌>>=◌, ◌>>◌, give, demand, change, Ran, Command, is_zero, has_text}
use artbox.Xsdc.{
  FoundPath, alias, plain, folder, Listing, unreal, real, Hashes, listed_files, write_generated,
}

-- A finished process and the directory that it was told to write to.
pub record Answer : Type 0 where
  pub ran : Ran
  pub listing : Listing

-- `commands` with what was answered, the newest first; the output; and `raw_hashes`.
pub record Work : Type 0 where
  pub asked : List (Command × Result Answer)
  pub disk : Disk
  pub raw_hashes : Hashes

-- `(raw / name).read_bytes()`
unfoldable pub found_at : List ℕ → List FoundPath → Option (List ℕ)
found_at name [] = none
found_at name (alias path ∷ rest) = found_at name rest
found_at name (folder path ∷ rest) = found_at name rest
found_at name (plain path contents ∷ rest) =
    let later = found_at name rest in if name ≟ path then some contents else later

abbrev pub found_in : List ℕ → Listing → Option (List ℕ)
found_in name unreal = none
found_in name (real found) = found_at name found

abbrev pub or_no_file : Option (List ℕ) → Result (List ℕ)
or_no_file none = err "FileNotFoundError"
or_no_file (some contents) = ok contents

-- `data.replace(b'\r\n', b'\n')`
unfoldable pub to_line_feeds : List ℕ → List ℕ
to_line_feeds [] = []
to_line_feeds (c ∷ []) = c ∷ []
to_line_feeds (c ∷ d ∷ rest) =
    let after = to_line_feeds (d ∷ rest) in if c == 13 && d == 10 then after else c ∷ after

-- `set(a) == set(b)`
abbrev pub same_set_of : List (List ℕ) → List (List ℕ) → Bool
same_set_of a b = all_in a b && all_in b a

abbrev pub or_key : Option (List ℕ) → Result (List ℕ)
or_key none = err "KeyError"
or_key (some value) = ok value

-- The options of the pin with another root element.
unfoldable pub invalid_options : List (List ℕ) → List (List ℕ)
invalid_options [] = []
invalid_options (o ∷ os) =
    (if o ≟ codes "apex-info-list" then codes "artbox-no-such-root" else o) ∷ invalid_options os

-- The commands: `javac -version`, the compilation, and the prefix of the generator.
pub record Words : Type 0 where
  pub version : Command
  pub compile : Command
  pub generator : Command
  pub options : List (List ℕ)
  pub scratch : List ℕ
  pub schema : List ℕ

abbrev pub at_scratch : Words → List ℕ → List ℕ
at_scratch words name = join words.scratch name

abbrev pub generation : Words → List (List ℕ) → List ℕ → List ℕ → Command
generation words options directory schema =
    words.generator ++ (options ++ (codes "-o" ∷ directory ∷ schema ∷ []))

abbrev pub note_answer : Command → Work → Result Answer → Work × Result Answer
note_answer words s answer = (record s { asked = (words, answer) ∷ s.asked }, answer)

abbrev pub save : List ℕ → List ℕ → Act Work (Unit {0})
save name contents = change λ (s : Work). record s {
  disk = record s.disk { files = write_file name contents s.disk.files };
}

abbrev pub place_disk : Result Disk → Act Work (Unit {0})
place_disk (err message) s = (s, err message)
place_disk (ok disk) s = (record s { disk = disk }, ok tt)

module _ (digest : List ℕ → List ℕ) (is_alias stays_below : List ℕ → Bool)
    (respond : List (Command × Result Answer) → Command → Result Answer) where
  abbrev pub ask_for : Command → Act Work Answer
  ask_for words s = note_answer words s (respond s.asked words)

  -- `run`, the local function.
  unfoldable pub run_words : Command → List ℕ → Bool → Act Work Answer
  run_words words label negative = do
    answer ← ask_for words
    save (label ++ codes ".stdout") answer.ran.out
    save (label ++ codes ".stderr") answer.ran.errors
    demand (if is_zero answer.ran.code then not negative else negative)
        "XSdc command or its negative control failed"
    give (ok answer)

  abbrev pub put_generated : List ℕ → List ℕ → Act Work (Unit {0})
  put_generated name contents s =
      place_disk (write_generated is_alias stays_below name contents s.disk) s

  abbrev pub check_normalized : List ℕ → List ℕ → Act Work (Unit {0})
  check_normalized normalized expected =
      demand (not (has_char 13 normalized) && digest normalized ≟ expected)
        "XSdc generated source differs from reviewed bytes"

  -- The body of the loop over the pinned files: `attempt == 0`.
  unfoldable pub keep_file : List ℕ → List ℕ → Listing → Act Work (Unit {0})
  keep_file name expected raw = do
    contents ← give (or_no_file (found_in name raw))
    check_normalized (to_line_feeds contents) expected
    change λ (s : Work). record s { raw_hashes = s.raw_hashes ++ ((name, digest contents) ∷ []) }
    put_generated (codes "raw-generated/" ++ name) contents
    put_generated (codes "generated/" ++ name) (to_line_feeds contents)

  unfoldable pub keep_files : Hashes → Listing → Act Work (Unit {0})
  keep_files [] raw = give (ok tt)
  keep_files (p ∷ ps) raw = do keep_file p.0 p.1 raw; keep_files ps raw

  -- The body in the second attempt.
  unfoldable pub compare_file : List ℕ → List ℕ → Listing → Act Work (Unit {0})
  compare_file name expected raw = do
    contents ← give (or_no_file (found_in name raw))
    check_normalized (to_line_feeds contents) expected
    (λ (s : Work). give (or_key (file_at name s.raw_hashes)) s) >>= λ known.
        demand (known ≟ digest contents) "XSdc generation is not repeatable"

  unfoldable pub compare_files : Hashes → Listing → Act Work (Unit {0})
  compare_files [] raw = give (ok tt)
  compare_files (p ∷ ps) raw = do compare_file p.0 p.1 raw; compare_files ps raw

  -- An attempt up to the check of the inventory.
  unfoldable pub attempt : Command → List ℕ → Hashes → Act Work Listing
  attempt words label pins = do
    answer ← run_words words label false
    hashes ← give (listed_files digest answer.listing)
    demand (same_set_of (paths_of hashes) (paths_of pins)) "XSdc output file inventory changed"
    give (ok answer.listing)

  -- The two runs that must fail.
  unfoldable pub run_controls : Words → Act Work (Unit {0})
  run_controls words = do
    broken ←
        run_words
          (generation words words.options (at_scratch words (codes "controls"))
            (at_scratch words (codes "malformed.xsd")))
          (codes "malformed-schema") true
    demand (has_text (codes "SAXParseException") broken.ran.errors)
        "Malformed schema failed for an unrelated reason"
    absent ←
        run_words
          (generation words (invalid_options words.options) (at_scratch words (codes "controls"))
            words.schema)
          (codes "unknown-root") true
    left ← give (listed_files digest absent.listing)
    demand (has_text (codes "Invalid root element") absent.ran.errors && is_nil left)
        "Invalid root control did not reject generation"

  -- The part of `prepare` that runs commands.
  unfoldable pub generate_twice : Words → Hashes → Act Work (Unit {0})
  generate_twice words pins = do
    version ← run_words words.version (codes "javac-version") false
    compiled ← run_words words.compile (codes "compile") false
    change λ (s : Work). record s { raw_hashes = [] }
    first ←
        attempt (generation words words.options (at_scratch words (codes "raw-0")) words.schema)
          (codes "generate-0") pins
    keep_files pins first
    second ←
        attempt (generation words words.options (at_scratch words (codes "raw-1")) words.schema)
          (codes "generate-1") pins
    compare_files pins second
    run_controls words
