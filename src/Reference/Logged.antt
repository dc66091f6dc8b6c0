-- ===== src/Reference/Logged.antt =====
-- scripts/binder_reference.py: what `run_native` keeps of the commands that it has run.
use artbox.Base.{
  ℕ, String, zero, suc, Bool, true, false, List, [], ◌∷◌, ◌++◌, Result, ok, err, ◌≡◌, refl, ap, inl,
  inr, Bool-cases,
}
use artbox.Report.Value.{Value}
use artbox.Shell.{Ran, is_zero, join_texts, log_entry}
use artbox.Shell.Returns.{Keeps, >>=-Keeps}
use artbox.Reference.{Spec, Tools, Invocation, Places, words, History, State}
use artbox.Reference.Native.{
  Host, finish_call, invoke, refcount, wait_released, release_module, unmount, clean_parts,
  count_fixture, check_module, measure, exercise,
}

module _ (host : Host) (spec : Spec) (tools : Tools) (places : Places) where
  -- The words of each command that has finished, with its output and its errors, the oldest first.
  abbrev pub log_of : History → List (List ℕ)
  log_of [] = []
  log_of ((call, err message) ∷ before) = log_of before
  log_of ((call, ok ran) ∷ before) =
      log_of before
      ++ (join_texts (32 ∷ []) (words spec tools places call) ++ (10 ∷ (ran.out ++ ran.errors)))
        ∷ []

  -- Each command was answered by the host, for the commands before it.
  abbrev pub IsAnswered : History → Type 0
  IsAnswered [] = Unit {0}
  IsAnswered ((call, answer) ∷ before) =
      (answer ≡ host.respond before (words spec tools places call)) × IsAnswered before

  abbrev pub IsLogged : State → Type 0
  IsLogged s = (s.logs ≡ log_of s.history) × IsAnswered s.history

module _ (is_word : ℕ → Bool) (parse : List ℕ → Result Value) (host : Host) (spec : Spec)
    (tools : Tools) (places : Places) where
  abbrev Logged : State → Type 0
  Logged s = IsLogged host spec tools places s

  finish_call-Logged :
      (s : State) (call : Invocation) (answer : Result Ran)
      → answer ≡ host.respond s.history (words spec tools places call)
      → Logged s
      → Logged (finish_call is_word parse host spec tools places s call answer).0
  unfolding log_entry
  finish_call-Logged s call (err message) is held = (held.0, (is, held.1))
  finish_call-Logged s call (ok ran) is held = (
    ap
        (λ (logs : List (List ℕ)).
          logs
          ++ (join_texts (32 ∷ []) (words spec tools places call) ++ (10 ∷ (ran.out ++ ran.errors)))
            ∷ [])
        held.0,
    (is, held.1),
  )

  invoke-Logged :
      (call : Invocation) → Keeps Logged (invoke is_word parse host spec tools places call)
  unfolding invoke
  invoke-Logged call s held =
      finish_call-Logged s call (host.respond s.history (words spec tools places call)) refl held

  refcount-Logged : Keeps Logged (refcount is_word parse host spec tools places)
  unfolding refcount
  refcount-Logged s held = held

  wait_released-Logged :
      (rounds : ℕ) → Keeps Logged (wait_released is_word parse host spec tools places rounds)
  unfolding wait_released
  wait_released-Logged zero = >>=-Keeps Logged _ _ refcount-Logged λ _ s held. held
  wait_released-Logged (suc rounds) = >>=-Keeps Logged _ _ refcount-Logged λ count s held.
      elim (Bool-cases (is_zero count)) [
        | inl done ↦ rw done held
        | inr wait ↦ rw wait (wait_released-Logged rounds s held)
      ]

  release_module-Logged :
      (loaded : Bool) → Keeps Logged (release_module is_word parse host spec tools places loaded)
  unfolding release_module
  release_module-Logged false = λ s held. held
  release_module-Logged true = >>=-Keeps Logged _ _ (wait_released-Logged host.rounds) λ _.
      >>=-Keeps Logged _ _ refcount-Logged λ count.
        >>=-Keeps Logged _ _ (λ s held. held)
          λ _. >>=-Keeps Logged _ _ (invoke-Logged Invocation.probe) λ answer.
            >>=-Keeps Logged _ _ (λ s held. held)
              λ unload.
                >>=-Keeps Logged _ _ (λ s held. held)
                  λ there. >>=-Keeps Logged _ _ (λ s held. held) λ _ s held. held

  unmount-Logged : (flag : Bool) → Keeps Logged (unmount is_word parse host spec tools places flag)
  unfolding unmount
  unmount-Logged false = λ s held. held
  unmount-Logged true = >>=-Keeps Logged _ _ (invoke-Logged Invocation.umount) λ _ s held. held

  pub clean_parts-Logged : Keeps Logged (clean_parts is_word parse host spec tools places)
  clean_parts-Logged s =
      >>=-Keeps Logged (unmount is_word parse host spec tools places s.mounted)
        (λ _ (t : State). release_module is_word parse host spec tools places t.loaded t)
        (unmount-Logged s.mounted) (λ _ (t : State). release_module-Logged t.loaded t) s

  check_module-Logged : Keeps Logged (check_module is_word parse host spec tools places)
  unfolding check_module
  check_module-Logged = >>=-Keeps Logged _ _ (invoke-Logged Invocation.vermagic) λ version.
      >>=-Keeps Logged _ _ (λ s held. held)
        λ _. >>=-Keeps Logged _ _ (invoke-Logged Invocation.license) λ license.
          >>=-Keeps Logged _ _ (λ s held. held)
            λ _. >>=-Keeps Logged _ _ (invoke-Logged Invocation.compile) λ _ s held. held

  measure-Logged :
      (executable : List ℕ) → Keeps Logged (measure is_word parse host spec tools places executable)
  unfolding measure
  measure-Logged executable =
      let counted : (fixture : String)
          → Keeps Logged (count_fixture is_word parse host spec tools places fixture) =
        λ fixture. >>=-Keeps Logged _ _ (λ s held. held) λ text s held. held in
      >>=-Keeps Logged _ _ (invoke-Logged Invocation.exercise) λ output.
        >>=-Keeps Logged _ _ (λ s held. held)
          λ result. >>=-Keeps Logged _ _ (counted "fixtures/binder-device/check.c") λ cases.
            >>=-Keeps Logged _ _ (counted "fixtures/binder-file/check.c") λ file_cases.
              >>=-Keeps Logged _ _ (counted "fixtures/binder-mapping/check.c") λ mapping_cases.
                >>=-Keeps Logged _ _ (λ s held. held)
                  λ _. >>=-Keeps Logged _ _ (λ s held. held) λ runner s held. held

  pub exercise-Logged :
      (executable : List ℕ)
      → Keeps Logged (exercise is_word parse host spec tools places executable)
  unfolding exercise
  exercise-Logged executable = >>=-Keeps Logged _ _ check_module-Logged λ identity.
      >>=-Keeps Logged _ _ (>>=-Keeps Logged _ _ (invoke-Logged Invocation.insmod) λ _ s held. held)
        λ _.
          >>=-Keeps Logged _ _
            (>>=-Keeps Logged _ _ (invoke-Logged Invocation.mount) λ _ s held. held)
            λ _. >>=-Keeps Logged _ _ (measure-Logged executable) λ measured s held. held
