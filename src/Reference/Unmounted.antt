-- ===== src/Reference/Unmounted.antt =====
-- scripts/binder_reference.py: `run_native` leaves no private binderfs mounted that it could unmount,
-- whatever the commands answer and however it ends.
use artbox.Base.Text.{codes, ◌≟◌}
use artbox.Base.{
  ℕ, String, not, zero, suc, ◌||◌, Bool, true, false, Option, none, some, List, [], ◌∷◌, Result, ok,
  err, ◌≡◌, refl, ap, ◌∙◌, inl, inr, Bool-cases,
}
use artbox.Report.Value.{Value}
use artbox.Shell.{Act, go_on, ◌>>=◌, ◌>>◌, give, demand, change, Ran, is_zero, succeeded}
use artbox.Shell.Returns.{Keeps, go_on-Keeps, >>=-Keeps}
use artbox.Reference.{
  Spec, Tools, tools_of, Invocation, Places, executable_of, words, History, State, no_run, Evidence,
}
use artbox.Reference.Native.{
  Host, finish_call, invoke, refcount, wait_released, release_module, unmount, clean_up,
  mount_context, load_module, count_fixture, check_module, measure, exercise, run_checked,
  run_found, run_native,
}

-- Whether the binderfs is mounted after a mount and before the next umount, by what was asked.
abbrev pub mark : Invocation → Bool → Bool → Bool
mark Invocation.mount done before = done || before
mark Invocation.umount done before = false
mark Invocation.vermagic done before = before
mark Invocation.license done before = before
mark Invocation.compile done before = before
mark Invocation.insmod done before = before
mark Invocation.exercise done before = before
mark Invocation.probe done before = before

abbrev pub is_mounted : History → Bool
is_mounted [] = false
is_mounted (asked ∷ before) = mark asked.0 (succeeded asked.1) (is_mounted before)

-- The flag of the code agrees.
abbrev pub Agrees : State → Type 0
Agrees s = is_mounted s.history ≡ s.mounted

abbrev pub IsUnmounted : State → Type 0
IsUnmounted s = is_mounted s.history ≡ false

-- A call that neither mounts nor unmounts.
abbrev IsNeutral : Invocation → Type 0
IsNeutral call = (done before : Bool) → mark call done before ≡ before

module _ (is_word : ℕ → Bool) (parse : List ℕ → Result Value) (host : Host) (spec : Spec)
    (tools : Tools) (places : Places) where
  finish_call-history :
      (s : State) (call : Invocation) (answer : Result Ran)
      → (finish_call is_word parse host spec tools places s call answer).0.history
        ≡ (call, answer) ∷ s.history
  finish_call-history s call (ok ran) = refl
  finish_call-history s call (err message) = refl

  finish_call-mounted :
      (s : State) (call : Invocation) (answer : Result Ran)
      → (finish_call is_word parse host spec tools places s call answer).0.mounted ≡ s.mounted
  finish_call-mounted s call (ok ran) = refl
  finish_call-mounted s call (err message) = refl

  invoke-Keeps :
      (P : Bool → Bool → Type 0) (call : Invocation)
      → IsNeutral call
      → Keeps
          (λ s. P (is_mounted s.history) s.mounted)
          (invoke is_word parse host spec tools places call)
  unfolding invoke
  invoke-Keeps P call neutral s held =
      let answer = host.respond s.history (words spec tools places call) in
      let after = finish_call is_word parse host spec tools places s call answer in
      let history : is_mounted after.0.history ≡ is_mounted s.history =
        ap is_mounted (finish_call-history s call answer)
        ∙ neutral (succeeded answer) (is_mounted s.history) in
      rw (history, finish_call-mounted s call answer) held

  module _ (P : Bool → Bool → Type 0) where
    abbrev Holds : State → Type 0
    Holds s = P (is_mounted s.history) s.mounted

    abbrev KeepsHolds : {A : Type 0} → Act State A → Type 0
    KeepsHolds m = Keeps Holds m

    refcount-Keeps : KeepsHolds (refcount is_word parse host spec tools places)
    unfolding refcount
    refcount-Keeps s held = held

    wait_released-Keeps :
        (rounds : ℕ) → KeepsHolds (wait_released is_word parse host spec tools places rounds)
    unfolding wait_released
    wait_released-Keeps zero = >>=-Keeps Holds _ _ refcount-Keeps λ _ s held. held
    wait_released-Keeps (suc rounds) = >>=-Keeps Holds _ _ refcount-Keeps λ count s held.
        elim (Bool-cases (is_zero count)) [
          | inl done ↦ rw done held
          | inr wait ↦ rw wait (wait_released-Keeps rounds s held)
        ]

    release_module-Keeps :
        (loaded : Bool) → KeepsHolds (release_module is_word parse host spec tools places loaded)
    unfolding release_module
    release_module-Keeps false = λ s held. held
    release_module-Keeps true = >>=-Keeps Holds _ _ (wait_released-Keeps host.rounds) λ _.
        >>=-Keeps Holds _ _ refcount-Keeps λ count.
          >>=-Keeps Holds _ _ (λ s held. held)
            λ _. >>=-Keeps Holds _ _ (invoke-Keeps P Invocation.probe λ done before. refl) λ answer.
              >>=-Keeps Holds _ _ (λ s held. held)
                λ unload.
                  >>=-Keeps Holds _ _ (λ s held. held)
                    λ there. >>=-Keeps Holds _ _ (λ s held. held) λ _ s held. held

  mount_context-Agrees : Keeps Agrees (mount_context is_word parse host spec tools places)
  unfolding invoke ◌>>=◌
  mount_context-Agrees s agrees =
      answered (host.respond s.history (words spec tools places Invocation.mount))
    where
      answered :
          (answer : Result Ran)
          → Agrees
              (go_on
                (finish_call is_word parse host spec tools places s Invocation.mount answer)
                λ _. change (λ (t : State). record t { mounted = true })).0
      answered (err message) = agrees
      answered (ok ran) = elim (Bool-cases (is_zero ran.code)) [
        | inl done ↦ rw (done, done) refl
        | inr failed ↦ rw (failed, failed) agrees
      ]

  check_module-Agrees : Keeps Agrees (check_module is_word parse host spec tools places)
  unfolding check_module
  check_module-Agrees =
      let P : Bool → Bool → Type 0 = λ held flag. held ≡ flag in
      >>=-Keeps Agrees _ _ (invoke-Keeps P Invocation.vermagic λ done before. refl) λ version.
        >>=-Keeps Agrees _ _ (λ s held. held)
          λ _.
            >>=-Keeps Agrees _ _ (invoke-Keeps P Invocation.license λ done before. refl) λ license.
              >>=-Keeps Agrees _ _ (λ s held. held)
                λ _.
                  >>=-Keeps Agrees _ _ (invoke-Keeps P Invocation.compile λ done before. refl)
                    λ _ s held. held

  measure-Agrees :
      (executable : List ℕ) → Keeps Agrees (measure is_word parse host spec tools places executable)
  unfolding measure
  measure-Agrees executable =
      let P : Bool → Bool → Type 0 = λ held flag. held ≡ flag in
      let counted : (fixture : String)
          → Keeps Agrees (count_fixture is_word parse host spec tools places fixture) =
        λ fixture. >>=-Keeps Agrees _ _ (λ s held. held) λ text s held. held in
      >>=-Keeps Agrees _ _ (invoke-Keeps P Invocation.exercise λ done before. refl) λ output.
        >>=-Keeps Agrees _ _ (λ s held. held)
          λ result. >>=-Keeps Agrees _ _ (counted "fixtures/binder-device/check.c") λ cases.
            >>=-Keeps Agrees _ _ (counted "fixtures/binder-file/check.c") λ file_cases.
              >>=-Keeps Agrees _ _ (counted "fixtures/binder-mapping/check.c") λ mapping_cases.
                >>=-Keeps Agrees _ _ (λ s held. held)
                  λ _. >>=-Keeps Agrees _ _ (λ s held. held) λ runner s held. held

  load_module-Agrees : Keeps Agrees (load_module is_word parse host spec tools places)
  load_module-Agrees =
      >>=-Keeps Agrees _ _
        (invoke-Keeps (λ held flag. held ≡ flag) Invocation.insmod λ done before. refl)
        λ _ s held. held

  exercise-Agrees :
      (executable : List ℕ)
      → Keeps Agrees (exercise is_word parse host spec tools places executable)
  unfolding exercise
  exercise-Agrees executable = >>=-Keeps Agrees _ _ check_module-Agrees λ identity.
      >>=-Keeps Agrees _ _ load_module-Agrees λ _.
        >>=-Keeps Agrees _ _ mount_context-Agrees
          λ _. >>=-Keeps Agrees _ _ (measure-Agrees executable) λ measured s held. held

  unmount-IsUnmounted :
      (flag : Bool) (s : State)
      → is_mounted s.history ≡ flag
      → IsUnmounted (unmount is_word parse host spec tools places flag s).0
  unfolding unmount invoke ◌>>=◌
  unmount-IsUnmounted false s agrees = agrees
  unmount-IsUnmounted true s agrees =
      answered (host.respond s.history (words spec tools places Invocation.umount))
    where
      answered :
          (answer : Result Ran)
          → IsUnmounted
              (go_on
                (finish_call is_word parse host spec tools places s Invocation.umount answer)
                λ _. give (ok tt)).0
      answered (err message) = refl
      answered (ok ran) = elim (Bool-cases (is_zero ran.code)) [
        | inl done ↦ rw done refl
        | inr failed ↦ rw failed refl
      ]

  run_checked-IsUnmounted :
      (executable : List ℕ) (s : State)
      → Agrees s
      → IsUnmounted (run_checked is_word parse host spec tools places executable s).0
  unfolding run_checked clean_up ◌>>=◌
  run_checked-IsUnmounted executable s agrees =
      let tried = exercise is_word parse host spec tools places executable s in
      go_on-Keeps IsUnmounted (unmount is_word parse host spec tools places tried.0.mounted tried.0)
        (λ _ (after : State).
          release_module is_word parse host spec tools places after.loaded after)
        (unmount-IsUnmounted tried.0.mounted tried.0 (exercise-Agrees executable s agrees))
        λ _ (after : State). release_module-Keeps (λ held flag. held ≡ false) after.loaded after

demand-IsUnmounted :
    (condition : Bool) (message : String) (next : Act State Evidence) (s : State)
    → IsUnmounted s
    → IsUnmounted (next s).0
    → IsUnmounted ((demand condition message >> next) s).0
unfolding ◌>>=◌
demand-IsUnmounted true message next s before after = after
demand-IsUnmounted false message next s before after = before

run_found-IsUnmounted :
    (is_word : ℕ → Bool) (parse : List ℕ → Result Value) (host : Host) (spec : Spec)
    (places : Places) (found : Option Tools)
    → IsUnmounted (run_found is_word parse host spec places found).0
unfolding run_found
run_found-IsUnmounted is_word parse host spec places none = refl
run_found-IsUnmounted is_word parse host spec places (some tools) =
    demand-IsUnmounted (not (host.module_there [])) _ _ no_run refl (
      demand-IsUnmounted (not (host.mount_alias || host.mount_occupied)) _ _ no_run refl (
        run_checked-IsUnmounted is_word parse host spec tools places (executable_of places) no_run
          refl))

-- Whatever the commands answer, the reads give and the texts parse to, and whether `run_native`
-- returns or raises: when it ends, no binderfs is mounted by what it asked, counting a mount
-- that was answered with exit 0 as mounted until an umount is asked for.
pub run_native-IsUnmounted :
    (is_word : ℕ → Bool) (parse : List ℕ → Result Value) (host : Host) (spec : Spec)
    (places : Places)
    → IsUnmounted (run_native is_word parse host spec places).0
unfolding run_native
run_native-IsUnmounted is_word parse host spec places =
    elim (Bool-cases (
      not (host.system ≟ codes "linux")
      || not (host.release ≟ spec.kernel)
      || not (host.machine ≟ spec.architecture))) [
        | inl other ↦ rw other refl
        | inr same ↦
            rw same (run_found-IsUnmounted is_word parse host spec places (tools_of host.which))
      ]
