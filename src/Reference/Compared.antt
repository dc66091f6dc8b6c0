-- ===== src/Reference/Compared.antt =====
-- scripts/binder_reference.py: what has happened when `compare_driver` returns.
use artbox.Base.{
  ℕ, not, Bool, true, false, Option, none, some, String, List, [], ◌∷◌, ◌++◌, Result, ok, ◌≡◌, refl,
  sym, ap, ◌∙◌, ok-injective,
}
use artbox.Report.Value.{Value}
use artbox.Sources.Plan.{not-true}
use artbox.Shell.{Ran, Command, is_zero, join_texts}
use artbox.Shell.Returns.{>>=-returned, demand-returned, give-returned}
use artbox.Reference.{place_in}
use artbox.Reference.Expected.{
  IsPassed, check_output-IsPassed, driver_table, vfs_table, receive_table, transaction_table,
}
use artbox.Reference.Compare.{
  Driver, Compared, Outside, Outputs, configure_words, build_words, ask, write, run_logged,
  run_builds, is_left, run_private, private_words, run_programs, compare_outputs, compare_driver,
}

-- A command that was asked for last, and exited with 0 and this output.
pub record Asked (words : Command) (before after : List (Command × Result Ran)) (out : List ℕ)
    : Type 0 where
  pub ran : Ran
  pub asked : after ≡ (words, ok ran) ∷ before
  pub ended : is_zero ran.code ≡ true
  pub output : out ≡ ran.out

module _ (outside : Outside) where
  run_logged-Asked :
      (words : Command) (s after : Driver) (out : List ℕ)
      → run_logged outside words s ≡ (after, ok out)
      → Asked words s.asked after.asked out
  unfolding run_logged ask
  run_logged-Asked words s after out e = >>=-returned (ask outside words) _ e λ ran s₁ e₁ r₁.
      >>=-returned (write outside (ran.out ++ ran.errors)) _ r₁ λ _ s₂ e₂ r₂.
        demand-returned (is_zero ran.code) _ _ r₂ λ ended r₃.
          let answered = ap (λ (x : Driver × Result Ran). x.1) e₁ in
          let first = ap (λ (x : Driver × Result Ran). x.0.asked) e₁ in
          let second = ap (λ (x : Driver × Result (Unit {0})). x.0.asked) e₂ in
          let third = ap (λ (x : Driver × Result (List ℕ)). x.0.asked) r₃ in
          record {
            ran = ran;
            asked =
                sym third
                ∙ sym second
                ∙ sym first
                ∙ ap (λ (r : Result Ran). (words, r) ∷ s.asked) answered;
            ended = ended;
            output = sym (ok-injective (ap (λ (x : Driver × Result (List ℕ)). x.1) r₃));
          }

  run_private-Asked :
      (words : Command) (message : String) (s after : Driver) (out : List ℕ)
      → run_private outside words message s ≡ (after, ok out)
      → Asked words s.asked after.asked out × (outside.left after.asked ≡ false)
  unfolding run_private
  run_private-Asked words message s after out e =
      >>=-returned (run_logged outside words) _ e λ text s₁ e₁ r₁.
        >>=-returned (is_left outside) _ r₁ λ left s₂ e₂ r₂.
          demand-returned (not left) _ _ r₂ λ empty r₃.
            let asked = run_logged-Asked words s s₁ text e₁ in
            let same =
              ap (λ (x : Driver × Result Bool). x.0.asked) e₂
              ∙ ap (λ (x : Driver × Result (List ℕ)). x.0.asked) r₃ in
            let is = ok-injective (ap (λ (x : Driver × Result (List ℕ)). x.1) r₃) in
            let found = ok-injective (ap (λ (x : Driver × Result Bool). x.1) e₂) in
            (
              record {
                ran = asked.ran;
                asked = sym same ∙ asked.asked;
                ended = asked.ended;
                output = sym is ∙ asked.output;
              },
              ap outside.left (sym same) ∙ found ∙ not-true empty,
            )

  run_builds-Asked :
      (words : Command) (rest : List Command) (s after : Driver)
      → run_builds outside (words ∷ rest) s ≡ (after, ok tt)
      → (out : List ℕ) × (between : Driver) × Asked words s.asked between.asked out
        × (run_builds outside rest between ≡ (after, ok tt))
  unfolding run_builds
  run_builds-Asked words rest s after e =
      let line = join_texts (32 ∷ []) words ++ 10 ∷ [] in
      >>=-returned (write outside line) _ e λ _ s₁ e₁ r₁.
        >>=-returned (run_logged outside words) _ r₁ λ out s₂ e₂ r₂.
          let asked = run_logged-Asked words s₁ s₂ out e₂ in
          let same = ap (λ (x : Driver × Result (Unit {0})). x.0.asked) e₁ in
          (
            out,
            s₂,
            record {
              ran = asked.ran;
              asked = asked.asked ∙ ap (λ as'. (words, ok asked.ran) ∷ as') (sym same);
              ended = asked.ended;
              output = asked.output;
            },
            r₂,
          )

  module _ (build root cmake : List ℕ) where
    abbrev Log : Type 0
    Log = List (Command × Result Ran)

    -- The six commands, one after another, with the outputs of the four programs.
    pub record IsRun (after : Log) (outputs : Outputs) : Type 0 where
      pub configured : Log
      pub built : Log
      pub driven : Log
      pub served : Log
      pub received : Log
      pub text₁ : List ℕ
      pub text₂ : List ℕ
      pub configure : Asked (configure_words cmake root build) [] configured text₁
      pub make : Asked (build_words cmake build) configured built text₂
      pub driver : Asked (place_in build "test_binder_device" ∷ []) built driven outputs.driver
      pub vfs : Asked (place_in build "test_binder_vfs" ∷ []) driven served outputs.vfs
      pub receive :
          Asked
            (private_words outside build "test_binder_receive" "receive-")
            served
            received
            outputs.receive
          × (outside.left received ≡ false)
      pub transactions :
          Asked
            (private_words outside build "test_binder_transactions" "transactions-")
            received
            after
            outputs.transactions
          × (outside.left after ≡ false)

    run_programs-IsRun :
        (s after : Driver) (outputs : Outputs)
        → s.asked ≡ []
        → run_programs outside build root cmake s ≡ (after, ok outputs)
        → IsRun after.asked outputs
    unfolding run_programs run_builds
    run_programs-IsRun s after outputs empty e =
        let builds = configure_words cmake root build ∷ build_words cmake build ∷ [] in
        >>=-returned (run_builds outside builds) _ e λ _ s₂ e₂ r₂.
          >>=-returned (run_logged outside (place_in build "test_binder_device" ∷ [])) _ r₂
            λ driver s₃ e₃ r₃.
              >>=-returned (run_logged outside (place_in build "test_binder_vfs" ∷ [])) _ r₃
                λ vfs s₄ e₄ r₄.
                  >>=-returned
                    (run_private outside
                      (private_words outside build "test_binder_receive" "receive-")
                      "Binder receive backing escaped its anonymous lifetime")
                    _ r₄
                    λ receive s₅ e₅ r₅.
                      >>=-returned
                        (run_private outside
                          (private_words outside build "test_binder_transactions" "transactions-")
                          "Binder transaction backing remains named")
                        _ r₅
                        λ transactions s₆ e₆ r₆.
                          let (text₁, t₁, configured, f₁) =
                            run_builds-Asked (configure_words cmake root build)
                              (build_words cmake build ∷ []) s s₂ e₂ in
                          let (text₂, t₂, made, f₂) =
                            run_builds-Asked (build_words cmake build) [] t₁ s₂ f₁ in
                          let same = ap (λ (x : Driver × Result (Unit {0})). x.0.asked) f₂ in
                          let is = ok-injective (ap (λ (x : Driver × Result Outputs). x.1) r₆) in
                          let last = ap (λ (x : Driver × Result Outputs). x.0) r₆ in
                          rw (sym is, sym last)
                            (record {
                              configured = t₁.asked;
                              built = t₂.asked;
                              driven = s₃.asked;
                              served = s₄.asked;
                              received = s₅.asked;
                              text₁ = text₁;
                              text₂ = text₂;
                              configure = rw empty at configured;
                              make = made;
                              driver = rw (sym same) at (
                                  run_logged-Asked (place_in build "test_binder_device" ∷ []) s₂ s₃
                                    driver e₃);
                              vfs =
                                  run_logged-Asked (place_in build "test_binder_vfs" ∷ []) s₃ s₄ vfs
                                    e₄;
                              receive =
                                  run_private-Asked
                                    (private_words outside build "test_binder_receive" "receive-")
                                    "Binder receive backing escaped its anonymous lifetime" s₄ s₅
                                    receive e₅;
                              transactions =
                                  run_private-Asked
                                    (private_words outside build "test_binder_transactions"
                                      "transactions-")
                                    "Binder transaction backing remains named" s₅ s₆ transactions
                                    e₆;
                            })

    module _ (parse : List ℕ → Result Value) (reference : Value) where
      -- The returned values are those that the programs printed, and equal what is expected.
      pub record IsCompared (after : Log) (compared : Compared) : Type 0 where
        pub outputs : Outputs
        pub ran : IsRun after outputs
        pub driver_passed : IsPassed parse reference driver_table outputs.driver compared.driver.0
        pub vfs_passed : IsPassed parse reference vfs_table outputs.vfs compared.vfs.0
        pub receive_passed :
            IsPassed parse reference receive_table outputs.receive compared.receive.0
        pub transactions_passed :
            IsPassed parse reference transaction_table outputs.transactions compared.transactions.0

      compare_outputs-IsCompared :
          (outputs : Outputs) (s after : Driver) (compared : Compared)
          → IsRun s.asked outputs
          → compare_outputs outside build parse reference outputs s ≡ (after, ok compared)
          → IsCompared after.asked compared
      unfolding compare_outputs
      compare_outputs-IsCompared outputs s after compared run e =
          give-returned _ _ e λ driver h₁ r₁. give-returned _ _ r₁ λ vfs h₂ r₂.
            give-returned _ _ r₂ λ receive h₃ r₃. give-returned _ _ r₃ λ transactions h₄ r₄.
              give-returned _ _ r₄ λ _ _ r₅. give-returned _ _ r₅ λ _ _ r₆.
                give-returned _ _ r₆ λ _ _ r₇. give-returned _ _ r₇ λ _ _ r₈.
                  let same = ap (λ (x : Driver × Result Compared). x.0) r₈ in
                  let is = ok-injective (ap (λ (x : Driver × Result Compared). x.1) r₈) in
                  rw (sym same, sym is)
                    (record {
                      outputs = outputs;
                      ran = run;
                      driver_passed =
                          check_output-IsPassed parse reference driver_table _ outputs.driver driver
                            h₁;
                      vfs_passed =
                          check_output-IsPassed parse reference vfs_table _ outputs.vfs vfs h₂;
                      receive_passed =
                          check_output-IsPassed parse reference receive_table _ outputs.receive
                            receive h₃;
                      transactions_passed =
                          check_output-IsPassed parse reference transaction_table _
                            outputs.transactions transactions h₄;
                    })

-- If `compare_driver` returns, starting with no command asked for, then CMake was found and
-- exactly six commands were asked for, each of which exited with 0: the two of CMake, then the
-- four test programs; nothing was left in the private directories of the last two after they
-- ended. Each of the four returned results is what its program printed, parsed, and equals the
-- dict that is made of the constants of the code and of the items of the reference.
pub compare_driver-IsCompared :
    (outside : Outside) (build root : List ℕ) (found : Option (List ℕ))
    (parse : List ℕ → Result Value) (reference : Value) (s after : Driver) (compared : Compared)
    → s.asked ≡ []
    → compare_driver outside build parse reference root found s ≡ (after, ok compared)
    → (cmake : List ℕ) × (found ≡ some cmake)
      × IsCompared outside build root cmake parse reference after.asked compared
unfolding compare_driver
compare_driver-IsCompared outside build root none parse reference s after compared empty e = cc
compare_driver-IsCompared outside build root (some cmake) parse reference s after compared empty e =
    >>=-returned (run_programs outside build root cmake) _ e λ outputs s₁ e₁ r₁. (
      cmake,
      refl,
      compare_outputs-IsCompared outside build root cmake parse reference outputs s₁ after compared
          (run_programs-IsRun outside build root cmake s s₁ outputs empty e₁) r₁,
    )
