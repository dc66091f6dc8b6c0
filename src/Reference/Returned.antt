-- ===== src/Reference/Returned.antt =====
-- scripts/binder_reference.py: what has happened when `run_native` returns.
use artbox.Base.{
  ℕ, zero, suc, ◌&&◌, ◌||◌, not, Bool, true, false, Option, none, some, List, [], ◌∷◌, Result, ok,
  ◌≡◌, refl, sym, ap, ◌∙◌, inl, inr, Bool-cases, and-eq-true, ok-injective,
}
use artbox.Base.Text.{codes, ◌≟◌}
use artbox.Paths.Laws.{Every}
use artbox.Report.Value.{Value, same_value}
use artbox.Shell.{is_zero, succeeded, first_word, join_texts}
use artbox.Shell.Returns.{
  Keeps, >>=-Keeps, >>=-returned, demand-returned, give-returned, settle-ok, kept,
}
use artbox.Reference.Went.{
  calls_of, Went, IsExact, invoke-Went, load_module-Went, mount_context-Went, check_module-Went,
  measure-Went,
}
use artbox.Reference.Logged.{log_of, IsAnswered, IsLogged, exercise-Logged, clean_parts-Logged}
use artbox.Reference.{
  Spec, Tools, tools_of, Invocation, Places, executable_of, State, no_run, Evidence,
  expected_unload,
}
use artbox.Reference.Native.{
  Host, invoke, refcount, wait_released, release_module, unmount, clean_parts, clean_up,
  mount_context, load_module, check_module, measure, exercise, is_there, run_checked, run_found,
  run_native,
}

-- The eight commands of a run that returns, the newest first.
abbrev pub all_calls : List Invocation
all_calls =
    Invocation.probe ∷ Invocation.umount ∷ Invocation.exercise ∷ Invocation.mount
    ∷ Invocation.insmod ∷ Invocation.compile ∷ Invocation.license ∷ Invocation.vermagic ∷ []

-- What the returned evidence says, and what was done for it.
pub record IsEvidence (host : Host) (spec : Spec) (places : Places) (s : State)
    (evidence : Evidence) : Type 0 where
  pub tools : Tools
  pub found : tools_of host.which ≡ some tools
  pub asked : calls_of s.history ≡ all_calls
  pub ended : Every (λ a. succeeded a.1 ≡ true) s.history
  pub kernel : first_word evidence.vermagic ≡ spec.kernel
  pub license : evidence.module_license ≡ codes "GPL v2"
  pub exact : IsExact evidence.result
  pub unloaded :
      (unload : Value) × (evidence.unload_probe ≡ some unload)
      × (same_value unload expected_unload ≡ true)
  pub answered : IsAnswered host spec tools places s.history
  pub logged : s.log ≡ some (join_texts (10 ∷ []) (log_of host spec tools places s.history))

module _ (is_word : ℕ → Bool) (parse : List ℕ → Result Value) (host : Host) (spec : Spec)
    (tools : Tools) (places : Places) where
  exercise-Went :
      (executable : List ℕ) (s after : State) (evidence : Evidence)
      → Went [] false false s
      → exercise is_word parse host spec tools places executable s ≡ (after, ok evidence)
      → Went
          (Invocation.exercise ∷ Invocation.mount ∷ Invocation.insmod ∷ Invocation.compile
            ∷ Invocation.license ∷ Invocation.vermagic ∷ [])
          true
          true
          after
        × (first_word evidence.vermagic ≡ spec.kernel)
        × (evidence.module_license ≡ codes "GPL v2")
        × IsExact evidence.result
  unfolding exercise
  exercise-Went executable s after evidence w e =
      >>=-returned (check_module is_word parse host spec tools places) _ e λ identity s₁ e₁ r₁.
        >>=-returned (load_module is_word parse host spec tools places) _ r₁ λ _ s₂ e₂ r₂.
          >>=-returned (mount_context is_word parse host spec tools places) _ r₂ λ _ s₃ e₃ r₃.
            >>=-returned (measure is_word parse host spec tools places executable) _ r₃
              λ measured s₄ e₄ r₄.
                let (w₁, kernel, license) =
                  check_module-Went is_word parse host spec tools places s s₁ identity w e₁ in
                let w₂ = load_module-Went is_word parse host spec tools places _ _ s₁ s₂ e₂ w₁ in
                let w₃ = mount_context-Went is_word parse host spec tools places _ _ s₂ s₃ e₃ w₂ in
                let (w₄, exact) =
                  measure-Went is_word parse host spec tools places executable _ _ _ s₃ s₄ measured
                    w₃ e₄ in
                let same = ap (λ (x : State × Result Evidence). x.0) r₄ in
                let is = ok-injective (ap (λ (x : State × Result Evidence). x.1) r₄) in
                (
                  rw (sym same) w₄,
                  ap (λ (x : Evidence). first_word x.vermagic) (sym is) ∙ kernel,
                  ap (λ (x : Evidence). x.module_license) (sym is) ∙ license,
                  transport_exact measured.0 evidence.result (ap (λ (x : Evidence). x.result) is)
                      exact,
                )
    where
      transport_exact : (a b : Value) → a ≡ b → IsExact a → IsExact b
      transport_exact a b same exact = rw (sym same) exact

  module _ (calls : List Invocation) (loaded mounted : Bool) where
    refcount-Went :
        Keeps (Went calls loaded mounted) (refcount is_word parse host spec tools places)
    unfolding refcount
    refcount-Went s w = record {
      asked = w.asked;
      ended = w.ended;
      loading = w.loading;
      mounting = w.mounting;
    }

    wait_released-Went :
        (rounds : ℕ)
        → Keeps
            (Went calls loaded mounted)
            (wait_released is_word parse host spec tools places rounds)
    unfolding wait_released
    wait_released-Went zero =
        >>=-Keeps (Went calls loaded mounted) _ _ refcount-Went λ _ s held. held
    wait_released-Went (suc rounds) =
        >>=-Keeps (Went calls loaded mounted) _ _ refcount-Went λ count s held.
          elim (Bool-cases (is_zero count)) [
            | inl done ↦ rw done held
            | inr wait ↦ rw wait (wait_released-Went rounds s held)
          ]

    release_module-Went :
        (s after : State) (released : Option Value)
        → Went calls loaded mounted s
        → release_module is_word parse host spec tools places true s ≡ (after, ok released)
        → Went (Invocation.probe ∷ calls) loaded mounted after
          × (unload : Value) × (released ≡ some unload)
          × (same_value unload expected_unload ≡ true)
    unfolding release_module
    release_module-Went s after released w e =
        let wait = wait_released is_word parse host spec tools places host.rounds in
        let read = refcount is_word parse host spec tools places in
        let W : State → Type 0 = Went calls loaded mounted in
        >>=-returned wait _ e λ _ s₁ e₁ r₁. >>=-returned read _ r₁ λ count s₂ e₂ r₂.
          demand-returned (is_zero count) _ _ r₂ λ zero_count r₃.
            >>=-returned (invoke is_word parse host spec tools places Invocation.probe) _ r₃
              λ answer s₃ e₃ r₄. give-returned (parse answer) _ r₄ λ unload parsed r₅.
                >>=-returned (is_there is_word parse host spec tools places) _ r₅ λ there s₄ e₄ r₆.
                  demand-returned (same_value unload expected_unload && there) _ _ r₆ λ expected r₇.
                    let w₁ = kept W wait s s₁ (ok tt) (wait_released-Went host.rounds) w e₁ in
                    let w₂ = kept W read s₁ s₂ (ok count) refcount-Went w₁ e₂ in
                    let w₃ =
                      invoke-Went is_word parse host spec tools places Invocation.probe calls loaded
                        mounted s₂ s₃ answer e₃ w₂ in
                    let same =
                      ap (λ (x : State × Result Bool). x.0) e₄
                      ∙ ap (λ (x : State × Result (Option Value)). x.0) r₇ in
                    let is = ok-injective (ap (λ (x : State × Result (Option Value)). x.1) r₇) in
                    (
                      rw (sym same) w₃,
                      unload,
                      sym is,
                      (and-eq-true (same_value unload expected_unload) there expected).0,
                    )

  clean_parts-Went :
      (calls : List Invocation) (s after : State) (released : Option Value)
      → Went calls true true s
      → clean_parts is_word parse host spec tools places s ≡ (after, ok released)
      → Went (Invocation.probe ∷ Invocation.umount ∷ calls) true true after
        × (unload : Value) × (released ≡ some unload)
        × (same_value unload expected_unload ≡ true)
  unfolding unmount
  clean_parts-Went calls s after released w e =
      >>=-returned (unmount is_word parse host spec tools places s.mounted)
        (λ _ (t : State). release_module is_word parse host spec tools places t.loaded t) e
        λ _ s₁ e₁ r₁.
          let e₂ : unmount is_word parse host spec tools places true s ≡ (s₁, ok tt) =
            ap (λ flag. unmount is_word parse host spec tools places flag s) (sym w.mounting)
            ∙ e₁ in
          >>=-returned (invoke is_word parse host spec tools places Invocation.umount) _ e₂
            λ out s₂ e₃ r₂.
              let w₂ =
                invoke-Went is_word parse host spec tools places Invocation.umount calls true true s
                  s₂ out e₃ w in
              let same = ap (λ (x : State × Result (Unit {0})). x.0) r₂ in
              let w₁ : Went (Invocation.umount ∷ calls) true true s₁ = rw (sym same) w₂ in
              release_module-Went (Invocation.umount ∷ calls) true true s₁ after released w₁ (
                ap (λ flag. release_module is_word parse host spec tools places flag s₁)
                  (sym w₁.loading)
                ∙ r₁)

  run_checked-IsEvidence :
      (executable : List ℕ) (s after : State) (evidence : Evidence)
      → Went [] false false s
      → tools_of host.which ≡ some tools
      → IsLogged host spec tools places s
      → run_checked is_word parse host spec tools places executable s ≡ (after, ok evidence)
      → IsEvidence host spec places after evidence
  unfolding run_checked clean_up
  run_checked-IsEvidence executable s after evidence w with_tools none_yet e =
      let tried = exercise is_word parse host spec tools places executable s in
      let cleaned = clean_parts is_word parse host spec tools places tried.0 in
      let both : Evidence → Option Value → Evidence =
        λ (found : Evidence) unload. record found { unload_probe = unload } in
      let (found, unload, ran, cleared, is) =
        settle-ok both tried.1 (clean_up is_word parse host spec tools places tried.0).1 evidence
          (ap (λ (x : State × Result Evidence). x.1) e) in
      let (released, written, parted, done, same) =
        settle-ok (λ (u : Option Value) (v : Unit {0}). u) cleaned.1 (ok tt) unload cleared in
      let (w₁, kernel, license, exact) =
        exercise-Went executable s tried.0 found w
          (ap (λ (r : Result Evidence). (tried.0, r)) ran) in
      let (w₂, freed, probed, matches) =
        clean_parts-Went _ tried.0 cleaned.0 released w₁
          (ap (λ (r : Result (Option Value)). (cleaned.0, r)) parted) in
      let (kept_logs, answered) =
        clean_parts-Logged is_word parse host spec tools places tried.0
          (exercise-Logged is_word parse host spec tools places executable s none_yet) in
      let logged = sym (ap (λ (x : State × Result Evidence). x.0) e) in
      rw (logged, is)
        (record {
          tools = tools;
          found = with_tools;
          asked = w₂.asked;
          ended = w₂.ended;
          kernel = kernel;
          license = license;
          exact = exact;
          unloaded = (freed, same ∙ probed, matches);
          answered = answered;
          logged = ap (λ (logs : List (List ℕ)). some (join_texts (10 ∷ []) logs)) kept_logs;
        })

run_found-IsEvidence :
    (is_word : ℕ → Bool) (parse : List ℕ → Result Value) (host : Host) (spec : Spec)
    (places : Places) (after : State) (evidence : Evidence) (found : Option Tools)
    → tools_of host.which ≡ found
    → run_found is_word parse host spec places found ≡ (after, ok evidence)
    → IsEvidence host spec places after evidence
unfolding run_found
run_found-IsEvidence is_word parse host spec places after evidence none is e = cc
run_found-IsEvidence is_word parse host spec places after evidence (some tools) is e =
    demand-returned (not (host.module_there [])) _ _ e λ absent e₁.
      demand-returned (not (host.mount_alias || host.mount_occupied)) _ _ e₁ λ free e₂.
        run_checked-IsEvidence is_word parse host spec tools places (executable_of places) no_run
          after evidence (record { asked = refl; ended = tt; loading = refl; mounting = refl }) is
          (refl, tt) e₂

-- If `run_native` returns, it has asked for exactly eight commands, in this order: the two of
-- modinfo, the compiler, insmod, mount, the fixture, umount and the unload probe, each of which
-- the host answered with exit 0. The evidence has the pinned kernel as its first word of
-- vermagic, the license GPL v2, a result that equals the expected one for some counts of cases,
-- and an answer of the unload probe that equals the expected one. The log that was written has
-- the words of each of these commands, with its output and its errors, in their order.
pub run_native-IsEvidence :
    (is_word : ℕ → Bool) (parse : List ℕ → Result Value) (host : Host) (spec : Spec)
    (places : Places) (after : State) (evidence : Evidence)
    → run_native is_word parse host spec places ≡ (after, ok evidence)
    → IsEvidence host spec places after evidence
unfolding run_native
run_native-IsEvidence is_word parse host spec places after evidence e =
    elim (Bool-cases (
      not (host.system ≟ codes "linux")
      || not (host.release ≟ spec.kernel)
      || not (host.machine ≟ spec.architecture))) [
        | inl other ↦ cc (rw other at e)
        | inr same ↦
            run_found-IsEvidence is_word parse host spec places after evidence (tools_of host.which)
              refl (rw same at e)
      ]
