-- ===== src/Xsdc/Twice.antt =====
-- scripts/xsdc.py: all runs of `prepare`, in order, and what holds when they have passed.
use artbox.Base.{
  ℕ, ◌&&◌, Bool, true, false, List, [], ◌∷◌, Result, ok, ◌≡◌, refl, sym, ap, ◌∙◌, and-eq-true,
}
use artbox.Base.Text.{codes}
use artbox.Paths.{is_nil}
use artbox.Paths.Laws.{Every}
use artbox.Tree.{paths_of}
use artbox.Shell.{Command, is_zero, has_text}
use artbox.Shell.Returns.{
  >>=-returned, demand-returned, give-returned, change-returned, demand-true,
}
use artbox.Xsdc.{Listing, Hashes, listed_files}
use artbox.Xsdc.Rounds.{
  Answer, Work, same_set_of, invalid_options, Words, at_scratch, generation, run_words, keep_files,
  compare_files, attempt, run_controls, generate_twice,
}
use artbox.Xsdc.Repeated.{IsHash, run_words-returned}
use artbox.Xsdc.Accepted.{
  IsReproduced, zero_exit, nonzero_exit, keep_files-returned, compare_files-returned, reproduced,
  attempt-returned,
}

abbrev pub first_words : Words → Command
first_words words = generation words words.options (at_scratch words (codes "raw-0")) words.schema

abbrev pub second_words : Words → Command
second_words words = generation words words.options (at_scratch words (codes "raw-1")) words.schema

abbrev pub malformed_words : Words → Command
malformed_words words =
    generation words words.options (at_scratch words (codes "controls"))
      (at_scratch words (codes "malformed.xsd"))

abbrev pub unknown_words : Words → Command
unknown_words words =
    generation words (invalid_options words.options) (at_scratch words (codes "controls"))
      words.schema

-- The malformed schema and the unknown root were refused for their own reasons.
abbrev pub IsRefused : (List ℕ → List ℕ) → Answer → Answer → Type 0
IsRefused digest broken absent =
    (is_zero broken.ran.code ≡ false)
    × (is_zero absent.ran.code ≡ false)
    × (has_text (codes "SAXParseException") broken.ran.errors ≡ true)
    × (has_text (codes "Invalid root element") absent.ran.errors ≡ true)
    × (listed_files digest absent.listing ≡ ok [])

is_nil-eq : (hashes : Hashes) → is_nil hashes ≡ true → hashes ≡ []
is_nil-eq [] e = refl
is_nil-eq (h ∷ hs) e = cc

module _ (digest : List ℕ → List ℕ) (is_alias stays_below : List ℕ → Bool)
    (respond : List (Command × Result Answer) → Command → Result Answer) where
  run_controls-returned :
      (words : Words) (s after : Work) (u : Unit {0})
      → run_controls digest is_alias stays_below respond words s ≡ (after, ok u)
      → (broken : Answer) × (absent : Answer) × IsRefused digest broken absent
        × (after.asked
            ≡ (unknown_words words, ok absent) ∷ (malformed_words words, ok broken) ∷ s.asked)
  unfolding run_controls
  run_controls-returned words s after u e =
      >>=-returned
        (run_words digest is_alias stays_below respond (malformed_words words)
          (codes "malformed-schema") true)
        _ e
        λ broken s₁ ran₁ r₁.
          demand-returned (has_text (codes "SAXParseException") broken.ran.errors) _ _ r₁
            λ reason r₂.
              >>=-returned
                (run_words digest is_alias stays_below respond (unknown_words words)
                  (codes "unknown-root") true)
                _ r₂
                λ absent s₂ ran₂ r₃.
                  give-returned (listed_files digest absent.listing) _ r₃ λ left listed r₄.
                    let (asked₁, held₁, ended₁) =
                      run_words-returned digest is_alias stays_below respond (malformed_words words)
                        (codes "malformed-schema") true s s₁ broken ran₁ in
                    let (asked₂, held₂, ended₂) =
                      run_words-returned digest is_alias stays_below respond (unknown_words words)
                        (codes "unknown-root") true s₁ s₂ absent ran₂ in
                    let (last, refused) =
                      demand-true
                        (has_text (codes "Invalid root element") absent.ran.errors && is_nil left)
                        "Invalid root control did not reject generation" s₂ after u r₄ in
                    let (named, nothing) =
                      and-eq-true (has_text (codes "Invalid root element") absent.ran.errors)
                        (is_nil left) refused in
                    (
                      broken,
                      absent,
                      (
                        nonzero_exit (is_zero broken.ran.code) ended₁,
                        nonzero_exit (is_zero absent.ran.code) ended₂,
                        reason,
                        named,
                        listed ∙ ap (λ (h : Hashes). ok h) (is_nil-eq left nothing),
                      ),
                      sym (ap (λ (t : Work). t.asked) last)
                          ∙ asked₂
                          ∙ ap ((unknown_words words, ok absent) ∷◌) asked₁,
                    )

  -- The two generations wrote exactly the pinned files, both the same.
  pub record IsRepeatable (words : Words) (pins : Hashes) (s after : Work) : Type 0 where
    pub version : Answer
    pub compiled : Answer
    pub one : Answer
    pub two : Answer
    pub broken : Answer
    pub absent : Answer
    pub asked :
        after.asked
        ≡ (unknown_words words, ok absent)
          ∷ (malformed_words words, ok broken)
          ∷ (second_words words, ok two)
          ∷ (first_words words, ok one)
          ∷ (words.compile, ok compiled)
          ∷ (words.version, ok version)
          ∷ s.asked
    pub ended :
        (is_zero version.ran.code ≡ true)
        × (is_zero compiled.ran.code ≡ true)
        × (is_zero one.ran.code ≡ true)
        × (is_zero two.ran.code ≡ true)
    pub inventory :
        (hashes : Hashes) × (again : Hashes) × (listed_files digest one.listing ≡ ok hashes)
        × (listed_files digest two.listing ≡ ok again)
        × (same_set_of (paths_of hashes) (paths_of pins) ≡ true)
        × (same_set_of (paths_of again) (paths_of pins) ≡ true)
    pub files : Every (IsReproduced digest one.listing two.listing) pins
    pub refused : IsRefused digest broken absent

  conclude :
      (words : Words) (pins : Hashes) (s s₁ s₂ s₃ s₄ s₅ s₆ after : Work) (version compiled : Answer)
      (first second : Listing) (u v w : Unit {0})
      → run_words digest is_alias stays_below respond words.version (codes "javac-version") false s
        ≡ (s₁, ok version)
      → run_words digest is_alias stays_below respond words.compile (codes "compile") false s₁
        ≡ (s₂, ok compiled)
      → attempt digest is_alias stays_below respond
          (first_words words)
          (codes "generate-0")
          pins
          (record s₂ { raw_hashes = [] })
        ≡ (s₃, ok first)
      → keep_files digest is_alias stays_below respond pins first s₃ ≡ (s₄, ok v)
      → attempt digest is_alias stays_below respond
          (second_words words)
          (codes "generate-1")
          pins
          s₄
        ≡ (s₅, ok second)
      → compare_files digest is_alias stays_below respond pins second s₅ ≡ (s₆, ok w)
      → run_controls digest is_alias stays_below respond words s₆ ≡ (after, ok u)
      → IsRepeatable words pins s after
  conclude words pins s s₁ s₂ s₃ s₄ s₅ s₆ after version compiled first second u v w ran₁ ran₂ ran₃
        kept ran₅ compared last =
      let (asked₁, held₁, ended₁) =
        run_words-returned digest is_alias stays_below respond words.version (codes "javac-version")
          false s s₁ version ran₁ in
      let (asked₂, held₂, ended₂) =
        run_words-returned digest is_alias stays_below respond words.compile (codes "compile") false
          s₁ s₂ compiled ran₂ in
      let (one, hashes, is₁, listed₁, same₁, zero₁, asked₃, held₃) =
        attempt-returned digest is_alias stays_below respond (first_words words)
          (codes "generate-0") pins (record s₂ { raw_hashes = [] }) s₃ first ran₃ in
      let (all_kept, asked₄, hashed) =
        keep_files-returned digest is_alias stays_below respond pins first s₃ s₄ v kept
          (rw held₃ tt) in
      let (two, again, is₂, listed₂, same₂, zero₂, asked₅, held₅) =
        attempt-returned digest is_alias stays_below respond (second_words words)
          (codes "generate-1") pins s₄ s₅ second ran₅ in
      let (all_compared, same_state) =
        compare_files-returned digest is_alias stays_below respond pins second s₅ s₆ w compared in
      let (broken, absent, refused, asked₇) = run_controls-returned words s₆ after u last in
      let hashed' : Every (IsHash digest first) s₅.raw_hashes = rw held₅ hashed in
      record {
        version = version;
        compiled = compiled;
        one = one;
        two = two;
        broken = broken;
        absent = absent;
        asked =
            asked₇
            ∙ ap
                (λ (xs : List (Command × Result Answer)).
                  (unknown_words words, ok absent) ∷ (malformed_words words, ok broken) ∷ xs)
                (sym (ap (λ (t : Work). t.asked) same_state)
                  ∙ asked₅
                  ∙ ap ((second_words words, ok two) ∷◌) (
                      asked₄
                      ∙ asked₃
                      ∙ ap ((first_words words, ok one) ∷◌)
                          (asked₂ ∙ ap ((words.compile, ok compiled) ∷◌) asked₁)));
        ended = (
          zero_exit (is_zero version.ran.code) ended₁,
          zero_exit (is_zero compiled.ran.code) ended₂,
          zero₁,
          zero₂,
        );
        inventory = (hashes, again, rw is₁ listed₁, rw is₂ listed₂, same₁, same₂);
        files =
            rw (is₁, is₂)
              (reproduced digest is_alias stays_below respond pins first second s₅.raw_hashes
                hashed' all_kept all_compared);
        refused = refused;
      }

  -- If the runs of `prepare` of XSdc return: six commands were asked for, in this order, the
  -- version and the run of javac, two generations, and the two controls; the first four exited
  -- with 0. Both generations left exactly the pinned names; each pinned file was in both with
  -- one digest, and, with its line ends normalized, has no CR and the pinned digest in both.
  -- The malformed schema and the unknown root exited with another code and their own messages,
  -- and the directory of the last one had no file.
  pub generate_twice-IsRepeatable :
      (words : Words) (pins : Hashes) (s after : Work) (u : Unit {0})
      → generate_twice digest is_alias stays_below respond words pins s ≡ (after, ok u)
      → IsRepeatable words pins s after
  unfolding generate_twice
  generate_twice-IsRepeatable words pins s after u e =
      >>=-returned
        (run_words digest is_alias stays_below respond words.version (codes "javac-version") false)
        _ e
        λ version s₁ ran₁ r₁.
          >>=-returned
            (run_words digest is_alias stays_below respond words.compile (codes "compile") false) _
            r₁
            λ compiled s₂ ran₂ r₂.
              >>=-returned
                (attempt digest is_alias stays_below respond (first_words words)
                  (codes "generate-0") pins)
                _ (change-returned _ _ r₂)
                λ first s₃ ran₃ r₃.
                  >>=-returned (keep_files digest is_alias stays_below respond pins first) _ r₃
                    λ v s₄ kept r₄.
                      >>=-returned
                        (attempt digest is_alias stays_below respond (second_words words)
                          (codes "generate-1") pins)
                        _ r₄
                        λ second s₅ ran₅ r₅.
                          >>=-returned
                            (compare_files digest is_alias stays_below respond pins second) _ r₅
                            λ w s₆ compared last.
                              conclude words pins s s₁ s₂ s₃ s₄ s₅ s₆ after version compiled first
                                second u v w ran₁ ran₂ ran₃ kept ran₅ compared last
