-- ===== src/Reference/Compare.antt =====
-- scripts/binder_reference.py: `compare_driver`, which builds the portable Binder tests and compares
-- what they report with the native reference.
use artbox.Base.{ℕ, not, Bool, Option, none, some, String, List, [], ◌∷◌, ◌++◌, Result, ok, err}
use artbox.Base.Text.{codes}
use artbox.Report.Value.{Value}
use artbox.Shell.{Act, ◌>>=◌, ◌>>◌, give, demand, change, Ran, Command, is_zero, join_texts}
use artbox.Reference.{place_in}
use artbox.Reference.Expected.{
  check_output, driver_table, vfs_table, receive_table, transaction_table,
}

-- The commands asked for, the newest first, and `comparison.log`.
pub record Driver : Type 0 where
  pub asked : List (Command × Result Ran)
  pub log : List ℕ

-- The parts of the dict that is returned: each result with the hash of its program.
pub record Compared : Type 0 where
  pub driver : Value × List ℕ
  pub vfs : Value × List ℕ
  pub receive : Value × List ℕ
  pub transactions : Value × List ℕ

-- What is outside: `left` is whether anything is left in the private directory of the last command.
pub record Outside : Type 0 where
  pub respond : List (Command × Result Ran) → Command → Result Ran
  pub left : List (Command × Result Ran) → Bool
  pub private_root : String → List ℕ
  pub digest_of : List ℕ → Result (List ℕ)

-- The standard outputs of the four programs.
pub record Outputs : Type 0 where
  pub driver : List ℕ
  pub vfs : List ℕ
  pub receive : List ℕ
  pub transactions : List ℕ

abbrev pub configure_words : List ℕ → List ℕ → List ℕ → Command
configure_words cmake root build =
    cmake ∷ codes "-S" ∷ root ∷ codes "-B" ∷ build ∷ codes "-DCMAKE_BUILD_TYPE=Release" ∷ []

abbrev pub build_words : List ℕ → List ℕ → Command
build_words cmake build =
    cmake
    ∷ codes "--build"
    ∷ build
    ∷ codes "--target"
    ∷ codes "test_binder_device"
    ∷ codes "test_binder_vfs"
    ∷ codes "test_binder_receive"
    ∷ codes "test_binder_transactions"
    ∷ codes "--parallel"
    ∷ codes "2"
    ∷ []

module _ (outside : Outside) where
  abbrev pub record_answer : Command → Driver → Result Ran → Driver × Result Ran
  record_answer words s answer = (record s { asked = (words, answer) ∷ s.asked }, answer)

  -- `subprocess.run`
  unfoldable pub ask : Command → Act Driver Ran
  ask words s = record_answer words s (outside.respond s.asked words)

  abbrev pub write : List ℕ → Act Driver (Unit {0})
  write text = change λ (s : Driver). record s { log = s.log ++ text }

  -- A command whose output goes to the log, with `check_returncode` after it.
  unfoldable pub run_logged : Command → Act Driver (List ℕ)
  run_logged words = do
    ran ← ask words
    write (ran.out ++ ran.errors)
    demand (is_zero ran.code) "CalledProcessError"
    give (ok ran.out)

  -- The loop over the two commands of CMake.
  unfoldable pub run_builds : List Command → Act Driver (Unit {0})
  run_builds [] = give (ok tt)
  run_builds (words ∷ rest) = do
    write (join_texts (32 ∷ []) words ++ 10 ∷ [])
    _ ← run_logged words
    run_builds rest

  abbrev pub is_left : Act Driver Bool
  is_left s = (s, ok (outside.left s.asked))

  -- A program that runs with a private directory.
  unfoldable pub run_private : Command → String → Act Driver (List ℕ)
  run_private words message = do
    out ← run_logged words
    left ← is_left
    demand (not left) message
    give (ok out)

  module _ (build : List ℕ) where
    abbrev pub private_words : String → String → Command
    private_words program prefix = place_in build program ∷ outside.private_root prefix ∷ []

    -- The block that writes the log.
    unfoldable pub run_programs : List ℕ → List ℕ → Act Driver Outputs
    run_programs root cmake = do
      run_builds (configure_words cmake root build ∷ build_words cmake build ∷ [])
      driver ← run_logged (place_in build "test_binder_device" ∷ [])
      vfs ← run_logged (place_in build "test_binder_vfs" ∷ [])
      receive ←
          run_private (private_words "test_binder_receive" "receive-")
            "Binder receive backing escaped its anonymous lifetime"
      transactions ←
          run_private (private_words "test_binder_transactions" "transactions-")
            "Binder transaction backing remains named"
      give (
          ok
            (record { driver = driver; vfs = vfs; receive = receive; transactions = transactions }))

    module _ (parse : List ℕ → Result Value) (reference : Value) where
      -- The four comparisons and the hashes after them.
      unfoldable pub compare_outputs : Outputs → Act Driver Compared
      compare_outputs outputs = do
        driver ← give (
            check_output parse reference driver_table
              "Portable Binder driver did not pass the exact native fixture" outputs.driver)
        vfs ← give (
            check_output parse reference vfs_table
              "Binder VFS did not pass the exact native ioctl and descriptor fixtures" outputs.vfs)
        receive ← give (
            check_output parse reference receive_table
              "Binder receive mapping did not pass the exact native lifetime fixture"
              outputs.receive)
        transactions ← give (
            check_output parse reference transaction_table
              "Binder transaction driver did not pass the shared native fixture"
              outputs.transactions)
        driver_digest ← give (outside.digest_of (place_in build "test_binder_device"))
        vfs_digest ← give (outside.digest_of (place_in build "test_binder_vfs"))
        receive_digest ← give (outside.digest_of (place_in build "test_binder_receive"))
        transaction_digest ← give (outside.digest_of (place_in build "test_binder_transactions"))
        give (
            ok (record {
              driver = (driver, driver_digest);
              vfs = (vfs, vfs_digest);
              receive = (receive, receive_digest);
              transactions = (transactions, transaction_digest);
            }))

      -- `compare_driver` with what `shutil.which('cmake')` gives.
      unfoldable pub compare_driver : List ℕ → Option (List ℕ) → Act Driver Compared
      compare_driver root none = give (err "Driver comparison requires an existing CMake")
      compare_driver root (some cmake) = do
        outputs ← run_programs root cmake
        compare_outputs outputs
