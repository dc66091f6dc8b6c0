-- ===== src/Aidl/Rounds.antt =====
-- scripts/binder_aidl.py: the runs of the compiler that `generate` makes before it returns.
use artbox.Base.{
  ℕ, true, Option, none, some, List, [], ◌∷◌, Result, ok, err, ◌≡◌, refl, sym, ap, ◌∙◌,
  ok-injective,
}
use artbox.Base.Text.{codes}
use artbox.Paths.{join}
use artbox.Tree.{Tree}
use artbox.Shell.{demand, Command, is_zero}
use artbox.Shell.Returns.{
  >>=-returned, demand-returned, give-returned, change-returned, demand-true,
}
use artbox.Aidl.Generate.{
  Output, Digests, same_digests, Generation, noted, unclosed_text, missing_type_text,
  generated_files, compiler_words, logged, compile_aidl, all_inputs, compile_round, invalid_input,
  is_rejected, stage_invalid, reject_invalid, keep_into, keep_generated, cleared, generate,
}
use artbox.Aidl.Generated.{IsComplete, generated_files-IsComplete, same_digests-eq}

-- The run was answered with this output, and noted.
abbrev pub IsNoted :
    (Generation → List ℕ → Command → Result Output)
    → List ℕ
    → Command
    → Output
    → Generation
    → Generation
    → Type 0
IsNoted respond directory words output s after =
    (respond s directory words ≡ ok output) × (noted directory words output s ≡ after)

logged-IsNoted :
    (directory : List ℕ) (words : Command) (s after : Generation) (output : Output)
    (answer : Result Output)
    → logged directory words s answer ≡ (after, ok output)
    → (answer ≡ ok output) × (noted directory words output s ≡ after)
logged-IsNoted directory words s after output (err message) e = cc
logged-IsNoted directory words s after output (ok given) e =
    let same : given ≡ output = ok-injective (ap (λ (x : Generation × Result Output). x.1) e) in
    (ap ok same, rw same at (ap (λ (x : Generation × Result Output). x.0) e))

module _ (digest : List ℕ → List ℕ) (respond : Generation → List ℕ → Command → Result Output)
    (executable : List ℕ) where
  compile_round-IsNoted :
      (source destination : List ℕ) (s after : Generation) (output : Output)
      → compile_round digest respond executable source destination s ≡ (after, ok output)
      → IsNoted respond source (compiler_words executable destination all_inputs) output s after
        × (is_zero output.ran.code ≡ true)
  unfolding compile_round compile_aidl
  compile_round-IsNoted source destination s after output e =
      >>=-returned (compile_aidl digest respond executable source destination all_inputs) _ e
        λ given s₁ run r₁. demand-returned (is_zero given.ran.code) _ _ r₁ λ ended r₂.
          let same : given ≡ output =
            ok-injective (ap (λ (x : Generation × Result Output). x.1) r₂) in
          let last : s₁ ≡ after = ap (λ (x : Generation × Result Output). x.0) r₂ in
          (
            rw (same, last) at
                (logged-IsNoted source (compiler_words executable destination all_inputs) s s₁ given
                  (respond s source (compiler_words executable destination all_inputs)) run),
            rw same at ended,
          )

  reject_invalid-IsNoted :
      (invalid destination text : List ℕ) (s after : Generation) (result : Unit {0})
      → reject_invalid digest respond executable invalid destination text s ≡ (after, ok result)
      → (output : Output) × IsNoted respond invalid
          (compiler_words executable destination (invalid_input ∷ []))
          output
          (stage_invalid invalid text s)
          after
        × (is_rejected output ≡ true)
  unfolding reject_invalid compile_aidl
  reject_invalid-IsNoted invalid destination text s after result e =
      let words = compiler_words executable destination (invalid_input ∷ []) in
      let staged = stage_invalid invalid text s in
      >>=-returned (compile_aidl digest respond executable invalid destination (invalid_input ∷ []))
        (λ output.
          demand (is_rejected output)
            "AIDL compiler did not reject the malformed input with a diagnostic")
        (change-returned (stage_invalid invalid text) _ e)
        λ output s₁ run r₁.
          let (last, rejected) =
            demand-true (is_rejected output)
              "AIDL compiler did not reject the malformed input with a diagnostic" s₁ after result
              r₁ in
          (
            output,
            rw last at
                (logged-IsNoted invalid words staged s₁ output (respond staged invalid words) run),
            rejected,
          )

  keep_into-kept :
      (one : Output) (first : Digests) (s after : Generation)
      (found : Option (Tree × List (List ℕ))) (result : Unit {0})
      → s.generated ≡ found
      → IsComplete digest one.files one.links first
      → keep_into digest one first found s ≡ (after, ok result)
      → (kept : Tree × List (List ℕ)) × (record s { generated = some kept } ≡ after)
        × IsComplete digest kept.0 kept.1 first
  keep_into-kept one first s after none result there complete e =
      ((one.files, one.links), ap (λ (x : Generation × Result (Unit {0})). x.0) e, complete)
  keep_into-kept one first s after (some old) result there complete e =
      give-returned (generated_files digest old.0 old.1) _ e λ found listed r₁.
        let (last, equal) =
          demand-true (same_digests found first)
            "Existing generated bindings differ; use a fresh --output directory" s after result
            r₁ in
        let same : found ≡ first = same_digests-eq found first equal in
        (
          old,
          ap (λ o. record s { generated = o }) (sym there) ∙ last,
          rw same at (generated_files-IsComplete digest old.0 old.1 found listed),
        )

  -- The states between the runs, and what each run has given.
  pub record IsGenerated (source stage : List ℕ) (s after : Generation) (first : Digests)
      : Type 0 where
    pub one : Output
    pub two : Output
    pub unclosed : Output
    pub missing : Output
    pub s₁ : Generation
    pub s₂ : Generation
    pub s₃ : Generation
    pub s₄ : Generation
    pub kept : Tree × List (List ℕ)
    pub first_run :
        IsNoted respond source
          (compiler_words executable (join stage (codes "first")) all_inputs)
          one
          (cleared s)
          s₁
    pub second_run :
        IsNoted respond source
          (compiler_words executable (join stage (codes "second")) all_inputs)
          two
          s₁
          s₂
    pub unclosed_run :
        IsNoted respond
          (join stage (codes "invalid-0"))
          (compiler_words executable (join stage (codes "rejected-0")) (invalid_input ∷ []))
          unclosed
          (stage_invalid (join stage (codes "invalid-0")) unclosed_text s₂)
          s₃
    pub missing_run :
        IsNoted respond
          (join stage (codes "invalid-1"))
          (compiler_words executable (join stage (codes "rejected-1")) (invalid_input ∷ []))
          missing
          (stage_invalid (join stage (codes "invalid-1")) missing_type_text s₃)
          s₄
    pub ended : (is_zero one.ran.code ≡ true) × (is_zero two.ran.code ≡ true)
    pub rejected : (is_rejected unclosed ≡ true) × (is_rejected missing ≡ true)
    pub one_complete : IsComplete digest one.files one.links first
    pub two_complete : IsComplete digest two.files two.links first
    pub stored : record s₄ { generated = some kept } ≡ after
    pub kept_complete : IsComplete digest kept.0 kept.1 first

  gather :
      (source stage : List ℕ) (s s₁ s₂ s₃ s₄ after : Generation) (one two : Output)
      (first second : Digests) (u v w : Unit {0})
      → compile_round digest respond executable source (join stage (codes "first")) (cleared s)
        ≡ (s₁, ok one)
      → compile_round digest respond executable source (join stage (codes "second")) s₁
        ≡ (s₂, ok two)
      → generated_files digest one.files one.links ≡ ok first
      → generated_files digest two.files two.links ≡ ok second
      → same_digests second first ≡ true
      → reject_invalid digest respond executable
          (join stage (codes "invalid-0"))
          (join stage (codes "rejected-0"))
          unclosed_text
          s₂
        ≡ (s₃, ok u)
      → reject_invalid digest respond executable
          (join stage (codes "invalid-1"))
          (join stage (codes "rejected-1"))
          missing_type_text
          s₃
        ≡ (s₄, ok v)
      → keep_into digest one first s₄.generated s₄ ≡ (after, ok w)
      → IsGenerated source stage s after first
  gather source stage s s₁ s₂ s₃ s₄ after one two first second u v w run₁ run₂ listed again same
        run₃ run₄ keep =
      let (noted₁, ended₁) =
        compile_round-IsNoted source (join stage (codes "first")) (cleared s) s₁ one run₁ in
      let (noted₂, ended₂) =
        compile_round-IsNoted source (join stage (codes "second")) s₁ s₂ two run₂ in
      let (unclosed, noted₃, rejected₃) =
        reject_invalid-IsNoted (join stage (codes "invalid-0")) (join stage (codes "rejected-0"))
          unclosed_text s₂ s₃ u run₃ in
      let (missing, noted₄, rejected₄) =
        reject_invalid-IsNoted (join stage (codes "invalid-1")) (join stage (codes "rejected-1"))
          missing_type_text s₃ s₄ v run₄ in
      let complete = generated_files-IsComplete digest one.files one.links first listed in
      let (kept, stored, kept_complete) =
        keep_into-kept one first s₄ after s₄.generated w refl complete keep in
      record {
        one = one;
        two = two;
        unclosed = unclosed;
        missing = missing;
        s₁ = s₁;
        s₂ = s₂;
        s₃ = s₃;
        s₄ = s₄;
        kept = kept;
        first_run = noted₁;
        second_run = noted₂;
        unclosed_run = noted₃;
        missing_run = noted₄;
        ended = (ended₁, ended₂);
        rejected = (rejected₃, rejected₄);
        one_complete = complete;
        two_complete =
            rw (same_digests-eq second first same) at
              (generated_files-IsComplete digest two.files two.links second again);
        stored = stored;
        kept_complete = kept_complete;
      }

  -- If `generate` returns, it has run the compiler four times, in this order, each from its own
  -- directory and with its own arguments, and nothing else has changed the state but the
  -- clearing of the log and of the record, the writing of the two malformed inputs, and at the
  -- end the directory of kept bindings: the first two runs exited with 0 and wrote exactly the
  -- expected files, regular and not empty, with the same digests, which are returned; the other
  -- two were given the malformed inputs and exited above 0 with an error; the kept bindings are
  -- exactly the expected files with these digests.
  pub generate-IsGenerated :
      (source stage : List ℕ) (s after : Generation) (first : Digests)
      → generate digest respond executable source stage s ≡ (after, ok first)
      → IsGenerated source stage s after first
  unfolding generate keep_generated
  generate-IsGenerated source stage s after first e =
      >>=-returned (compile_round digest respond executable source (join stage (codes "first"))) _
        (change-returned cleared _ e)
        λ one s₁ run₁ r₁.
          >>=-returned
            (compile_round digest respond executable source (join stage (codes "second"))) _ r₁
            λ two s₂ run₂ r₂.
              give-returned (generated_files digest one.files one.links) _ r₂ λ found listed r₃.
                give-returned (generated_files digest two.files two.links) _ r₃ λ second again r₄.
                  demand-returned (same_digests second found) _ _ r₄ λ same r₅.
                    >>=-returned
                      (reject_invalid digest respond executable (join stage (codes "invalid-0"))
                        (join stage (codes "rejected-0")) unclosed_text)
                      _ r₅
                      λ u s₃ run₃ r₆.
                        >>=-returned
                          (reject_invalid digest respond executable (join stage (codes "invalid-1"))
                            (join stage (codes "rejected-1")) missing_type_text)
                          _ r₆
                          λ v s₄ run₄ r₇.
                            >>=-returned (keep_generated digest one found) _ r₇ λ w s₅ keep r₈.
                              rw
                                (
                                  ap (λ (x : Generation × Result Digests). x.0) r₈,
                                  ok-injective (ap (λ (x : Generation × Result Digests). x.1) r₈),
                                )
                                at
                                (gather source stage s s₁ s₂ s₃ s₄ s₅ one two found second u v w
                                  run₁ run₂ listed again same run₃ run₄ keep)
