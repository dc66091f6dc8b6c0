-- ===== src/Reference/Went.antt =====
-- scripts/binder_reference.py: the commands that have succeeded when a part of `run_native` returns.
use artbox.Base.{
  ℕ, ◌&&◌, not, if◌then◌else◌, Bool, true, false, String, List, [], ◌∷◌, Result, ok, err, ◌≡◌, refl,
  sym, ap, ◌∙◌, and-eq-true, ok-injective,
}
use artbox.Base.Int.{ℤ}
use artbox.Base.Text.{codes, ◌≟◌, ≟_iff}
use artbox.Paths.{is_nil}
use artbox.Paths.Laws.{Every}
use artbox.Report.Value.{Value, same_value}
use artbox.Shell.{Ran, is_zero, succeeded, strip, first_word}
use artbox.Shell.Returns.{Keeps, >>=-Keeps, >>=-returned, demand-returned, give-returned, kept}
use artbox.Reference.{Spec, Tools, Invocation, Places, words, History, State, expected_native}
use artbox.Reference.Native.{
  Host, finish_call, invoke, count_fixture, mount_context, load_module, check_module, measure,
}

abbrev pub calls_of : History → List Invocation
calls_of [] = []
calls_of (asked ∷ before) = asked.0 ∷ calls_of before

-- The commands so far, the newest first, all of which exited with 0, and the flags of the code.
pub record Went (calls : List Invocation) (loaded mounted : Bool) (s : State) : Type 0 where
  pub asked : calls_of s.history ≡ calls
  pub ended : Every (λ a. succeeded a.1 ≡ true) s.history
  pub loading : s.loaded ≡ loaded
  pub mounting : s.mounted ≡ mounted

-- The result is the one that is expected for some counts of cases.
abbrev pub IsExact : Value → Type 0
IsExact result =
    (cases : ℤ) × (file_cases : ℤ) × (mapping_cases : ℤ) × (same_value result
        (expected_native cases file_cases mapping_cases)
      ≡ true)

exit-zero :
    (condition : Bool) (message : String) (text out : List ℕ)
    → (if condition then ok text else err message) ≡ ok out
    → condition ≡ true
exit-zero true message text out h = refl
exit-zero false message text out h = cc

module _ (is_word : ℕ → Bool) (parse : List ℕ → Result Value) (host : Host) (spec : Spec)
    (tools : Tools) (places : Places) where
  finish_call-Went :
      (call : Invocation) (calls : List Invocation) (loaded mounted : Bool) (s after : State)
      (answer : Result Ran) (out : List ℕ)
      → finish_call is_word parse host spec tools places s call answer ≡ (after, ok out)
      → Went calls loaded mounted s
      → Went (call ∷ calls) loaded mounted after
  finish_call-Went call calls loaded mounted s after (err message) out e went = cc
  finish_call-Went call calls loaded mounted s after (ok ran) out e went =
      let same = ap (λ (x : State × Result (List ℕ)). x.0) e in
      let done : is_zero ran.code ≡ true =
        exit-zero (is_zero ran.code) "Native reference command failed" ran.out out
          (ap (λ (x : State × Result (List ℕ)). x.1) e) in
      rw (sym same) (record {
        asked = ap (λ (cs : List Invocation). call ∷ cs) went.asked;
        ended = (done, went.ended);
        loading = went.loading;
        mounting = went.mounting;
      })

  pub invoke-Went :
      (call : Invocation) (calls : List Invocation) (loaded mounted : Bool) (s after : State)
      (out : List ℕ)
      → invoke is_word parse host spec tools places call s ≡ (after, ok out)
      → Went calls loaded mounted s
      → Went (call ∷ calls) loaded mounted after
  unfolding invoke
  invoke-Went call calls loaded mounted s after out e went =
      finish_call-Went call calls loaded mounted s after
        (host.respond s.history (words spec tools places call)) out e went

  pub load_module-Went :
      (calls : List Invocation) (mounted : Bool) (s after : State)
      → load_module is_word parse host spec tools places s ≡ (after, ok tt)
      → Went calls false mounted s
      → Went (Invocation.insmod ∷ calls) true mounted after
  load_module-Went calls mounted s after e went =
      >>=-returned (invoke is_word parse host spec tools places Invocation.insmod) _ e
        λ out between is rest.
          let asked = invoke-Went Invocation.insmod calls false mounted s between out is went in
          let same = ap (λ (x : State × Result (Unit {0})). x.0) rest in
          rw (sym same) (record {
            asked = asked.asked;
            ended = asked.ended;
            loading = refl;
            mounting = asked.mounting;
          })

  pub mount_context-Went :
      (calls : List Invocation) (loaded : Bool) (s after : State)
      → mount_context is_word parse host spec tools places s ≡ (after, ok tt)
      → Went calls loaded false s
      → Went (Invocation.mount ∷ calls) loaded true after
  mount_context-Went calls loaded s after e went =
      >>=-returned (invoke is_word parse host spec tools places Invocation.mount) _ e
        λ out between is rest.
          let asked = invoke-Went Invocation.mount calls loaded false s between out is went in
          let same = ap (λ (x : State × Result (Unit {0})). x.0) rest in
          rw (sym same) (record {
            asked = asked.asked;
            ended = asked.ended;
            loading = asked.loading;
            mounting = refl;
          })

  count_fixture-Keeps :
      (I : State → Type 0) (fixture : String)
      → Keeps I (count_fixture is_word parse host spec tools places fixture)
  count_fixture-Keeps I fixture = >>=-Keeps I _ _ (λ s held. held) λ text s held. held

  counted :
      (I : State → Type 0) (fixture : String) (s after : State) (n : ℤ)
      → I s
      → count_fixture is_word parse host spec tools places fixture s ≡ (after, ok n)
      → I after
  counted I fixture s after n held e =
      kept I (count_fixture is_word parse host spec tools places fixture) s after (ok n)
        (count_fixture-Keeps I fixture) held e

  pub check_module-Went :
      (s after : State) (identity : List ℕ × List ℕ)
      → Went [] false false s
      → check_module is_word parse host spec tools places s ≡ (after, ok identity)
      → Went (Invocation.compile ∷ Invocation.license ∷ Invocation.vermagic ∷ []) false false after
        × (first_word identity.0 ≡ spec.kernel)
        × (identity.1 ≡ codes "GPL v2")
  unfolding check_module
  check_module-Went s after identity w e =
      >>=-returned (invoke is_word parse host spec tools places Invocation.vermagic) _ e
        λ version s₁ e₁ r₁.
          demand-returned (not (is_nil (strip version)) && first_word (strip version) ≟ spec.kernel)
            _ _ r₁
            λ kernel r₂.
              >>=-returned (invoke is_word parse host spec tools places Invocation.license) _ r₂
                λ license s₂ e₂ r₃.
                  demand-returned (strip license ≟ codes "GPL v2") _ _ r₃ λ licensed r₄.
                    >>=-returned (invoke is_word parse host spec tools places Invocation.compile) _
                      r₄
                      λ out s₃ e₃ r₅.
                        let w₁ = invoke-Went Invocation.vermagic _ _ _ s s₁ version e₁ w in
                        let w₂ = invoke-Went Invocation.license _ _ _ s₁ s₂ license e₂ w₁ in
                        let w₃ = invoke-Went Invocation.compile _ _ _ s₂ s₃ out e₃ w₂ in
                        let same = ap (λ (x : State × Result (List ℕ × List ℕ)). x.0) r₅ in
                        let is : (strip version, strip license) ≡ identity =
                          ok-injective (ap (λ (x : State × Result (List ℕ × List ℕ)). x.1) r₅) in
                        let first =
                          and-eq-true (not (is_nil (strip version)))
                            (first_word (strip version) ≟ spec.kernel) kernel in
                        (
                          rw (sym same) w₃,
                          ap (λ (x : List ℕ × List ℕ). first_word x.0) (sym is)
                              ∙ (≟_iff (first_word (strip version)) spec.kernel).0 first.1,
                          ap (λ (x : List ℕ × List ℕ). x.1) (sym is)
                              ∙ (≟_iff (strip license) (codes "GPL v2")).0 licensed,
                        )

  pub measure-Went :
      (executable : List ℕ) (calls : List Invocation) (loaded mounted : Bool) (s after : State)
      (measured : Value × List ℕ)
      → Went calls loaded mounted s
      → measure is_word parse host spec tools places executable s ≡ (after, ok measured)
      → Went (Invocation.exercise ∷ calls) loaded mounted after × IsExact measured.0
  unfolding measure
  measure-Went executable calls loaded mounted s after measured w e =
      let I : State → Type 0 = Went (Invocation.exercise ∷ calls) loaded mounted in
      let count = count_fixture is_word parse host spec tools places in
      >>=-returned (invoke is_word parse host spec tools places Invocation.exercise) _ e
        λ output s₁ e₁ r₁. give-returned (parse output) _ r₁ λ result parsed r₂.
          >>=-returned (count "fixtures/binder-device/check.c") _ r₂ λ cases s₂ e₂ r₃.
            >>=-returned (count "fixtures/binder-file/check.c") _ r₃ λ file_cases s₃ e₃ r₄.
              >>=-returned (count "fixtures/binder-mapping/check.c") _ r₄ λ mapping_cases s₄ e₄ r₅.
                demand-returned (same_value result (expected_native cases file_cases mapping_cases))
                  _ _ r₅
                  λ exact r₆. give-returned (host.digest_of executable) _ r₆ λ runner hashed r₇.
                    let w₁ = invoke-Went Invocation.exercise _ _ _ s s₁ output e₁ w in
                    let w₂ = counted I "fixtures/binder-device/check.c" s₁ s₂ cases w₁ e₂ in
                    let w₃ = counted I "fixtures/binder-file/check.c" s₂ s₃ file_cases w₂ e₃ in
                    let w₄ =
                      counted I "fixtures/binder-mapping/check.c" s₃ s₄ mapping_cases w₃ e₄ in
                    let same = ap (λ (x : State × Result (Value × List ℕ)). x.0) r₇ in
                    let is : (result, runner) ≡ measured =
                      ok-injective (ap (λ (x : State × Result (Value × List ℕ)). x.1) r₇) in
                    (rw (sym same) w₄, rw (sym is) (cases, file_cases, mapping_cases, exact))
