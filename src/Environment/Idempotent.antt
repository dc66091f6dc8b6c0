-- ===== src/Environment/Idempotent.antt =====
-- scripts/environment.py: `environment` of an environment that it has returned changes nothing.
use artbox.Base.{ℕ, Option, none, some, List, ◌≡◌, refl, ◌∙◌, inl, inr, Bool-cases}
use artbox.Base.Text.{codes, ◌≟◌}
use artbox.Tree.{file_at, write_file, write_all}
use artbox.Tree.Writes.{or_else}
use artbox.Environment.{
  Env, get, cache_table, below, directory_path, directories, cache_of, scratch_of, sdk_of,
  sdk_defaults, scratch_defaults, is_one, environment,
}
use artbox.Environment.Configured.{forced, defaulted, environment_lem, or_else-none}

middle_none :
    (a b b' c : Option (List ℕ))
    → (b ≡ none → b' ≡ none)
    → or_else a (or_else b c) ≡ none
    → or_else a (or_else b' c) ≡ none
middle_none (some x) b b' c f h = cc
middle_none none (some x) b' c f h = cc
middle_none none none b' c f h = rw (f refl) h

sdk_none : (j a b : List ℕ) → get j (sdk_defaults a) ≡ none → get j (sdk_defaults b) ≡ none
unfolding file_at
sdk_none j a b h = elim (Bool-cases (j ≟ codes "ANDROID_HOME")) [
  | inl home ↦ cc (rw home at h)
  | inr other ↦ elim (Bool-cases (j ≟ codes "ANDROID_SDK_ROOT")) [
    | inl sdk ↦ cc (rw sdk at (rw other at h))
    | inr neither ↦ rw other (rw neither refl)
  ]
]

settled :
    (f e d d' : Option (List ℕ))
    → (d ≡ none → d' ≡ none)
    → or_else f (or_else (or_else f (or_else e d)) d') ≡ or_else f (or_else e d)
settled (some x) e d d' h = refl
settled none (some x) d d' h = refl
settled none none (some x) d' h = refl
settled none none none d' h = h refl

module _ (resolve : List ℕ → List ℕ) (root : List ℕ) (env : Env) where
  abbrev again : Env
  again = environment resolve root env

  at_cache :
      or_else (forced resolve root env (codes "ARTBOX_CACHE_DIR")) (
        or_else
          (get (codes "ARTBOX_CACHE_DIR") env)
          (defaulted resolve root env (codes "ARTBOX_CACHE_DIR")))
      ≡ some (cache_of resolve root env)
  unfolding file_at write_all write_file directories below ◌≟◌
  at_cache = elim (Bool-cases (is_one (get (codes "ARTBOX_ISOLATE_HOME") env))) [
    | inl alone ↦ rw alone refl
    | inr shared ↦ rw shared refl
  ]

  at_temp :
      or_else (forced resolve root env (codes "ARTBOX_TEMP_DIR")) (
        or_else
          (get (codes "ARTBOX_TEMP_DIR") env)
          (defaulted resolve root env (codes "ARTBOX_TEMP_DIR")))
      ≡ some (scratch_of resolve root env)
  unfolding file_at write_all write_file directories below ◌≟◌
  at_temp = elim (Bool-cases (is_one (get (codes "ARTBOX_ISOLATE_HOME") env))) [
    | inl alone ↦ rw alone refl
    | inr shared ↦ rw shared refl
  ]

  at_build :
      or_else (forced resolve root env (codes "ARTBOX_BUILD_DIR")) (
        or_else
          (get (codes "ARTBOX_BUILD_DIR") env)
          (defaulted resolve root env (codes "ARTBOX_BUILD_DIR")))
      ≡ some (directory_path resolve root env (codes "ARTBOX_BUILD_DIR") "build")
  unfolding file_at write_all write_file directories below ◌≟◌
  at_build = elim (Bool-cases (is_one (get (codes "ARTBOX_ISOLATE_HOME") env))) [
    | inl alone ↦ rw alone refl
    | inr shared ↦ rw shared refl
  ]

  at_artifacts :
      or_else (forced resolve root env (codes "ARTBOX_ARTIFACTS_DIR")) (
        or_else
          (get (codes "ARTBOX_ARTIFACTS_DIR") env)
          (defaulted resolve root env (codes "ARTBOX_ARTIFACTS_DIR")))
      ≡ some (directory_path resolve root env (codes "ARTBOX_ARTIFACTS_DIR") "artifacts")
  unfolding file_at write_all write_file directories below ◌≟◌
  at_artifacts = elim (Bool-cases (is_one (get (codes "ARTBOX_ISOLATE_HOME") env))) [
    | inl alone ↦ rw alone refl
    | inr shared ↦ rw shared refl
  ]

  at_isolate :
      or_else (forced resolve root env (codes "ARTBOX_ISOLATE_HOME")) (
        or_else
          (get (codes "ARTBOX_ISOLATE_HOME") env)
          (defaulted resolve root env (codes "ARTBOX_ISOLATE_HOME")))
      ≡ get (codes "ARTBOX_ISOLATE_HOME") env
  unfolding file_at write_all write_file directories below ◌≟◌
  at_isolate = elim (Bool-cases (is_one (get (codes "ARTBOX_ISOLATE_HOME") env))) [
    | inl alone ↦ rw alone (or_else-none (get (codes "ARTBOX_ISOLATE_HOME") env))
    | inr shared ↦ rw shared (or_else-none (get (codes "ARTBOX_ISOLATE_HOME") env))
  ]

  -- The variables that `environment` forces whatever the home is.
  forced_directory :
      (get (codes "ARTBOX_CACHE_DIR") again ≡ some (cache_of resolve root env))
      × (get (codes "ARTBOX_TEMP_DIR") again ≡ some (scratch_of resolve root env))
      × (get (codes "ARTBOX_BUILD_DIR") again
          ≡ some (directory_path resolve root env (codes "ARTBOX_BUILD_DIR") "build"))
      × (get (codes "ARTBOX_ARTIFACTS_DIR") again
          ≡ some (directory_path resolve root env (codes "ARTBOX_ARTIFACTS_DIR") "artifacts"))
      × (get (codes "ARTBOX_ISOLATE_HOME") again ≡ get (codes "ARTBOX_ISOLATE_HOME") env)
  forced_directory = (
    environment_lem resolve root env (codes "ARTBOX_CACHE_DIR") ∙ at_cache,
    environment_lem resolve root env (codes "ARTBOX_TEMP_DIR") ∙ at_temp,
    environment_lem resolve root env (codes "ARTBOX_BUILD_DIR") ∙ at_build,
    environment_lem resolve root env (codes "ARTBOX_ARTIFACTS_DIR") ∙ at_artifacts,
    environment_lem resolve root env (codes "ARTBOX_ISOLATE_HOME") ∙ at_isolate,
  )

-- If resolving a path twice is resolving it once, `environment` of an environment that it has
-- returned changes no variable.
pub environment_again :
    (resolve : List ℕ → List ℕ) (root : List ℕ) (env : Env) (j : List ℕ)
    → ((path : List ℕ) → resolve (resolve path) ≡ resolve path)
    → get j (environment resolve root (environment resolve root env))
      ≡ get j (environment resolve root env)
unfolding directories
environment_again resolve root env j twice =
    let env' = environment resolve root env in
    let (at_cache, at_temp, at_build, at_artifacts, at_isolate) =
      forced_directory resolve root env in
    let cache : cache_of resolve root env' ≡ cache_of resolve root env = rw at_cache (twice _) in
    let scratch : scratch_of resolve root env' ≡ scratch_of resolve root env =
      rw at_temp (twice _) in
    let build : directory_path resolve root env' (codes "ARTBOX_BUILD_DIR") "build"
        ≡ directory_path resolve root env (codes "ARTBOX_BUILD_DIR") "build" =
      rw at_build (twice _) in
    let artifacts : directory_path resolve root env' (codes "ARTBOX_ARTIFACTS_DIR") "artifacts"
        ≡ directory_path resolve root env (codes "ARTBOX_ARTIFACTS_DIR") "artifacts" =
      rw at_artifacts (twice _) in
    let same : forced resolve root env' j ≡ forced resolve root env j =
      rw (cache, scratch, build, artifacts, at_isolate) refl in
    environment_lem resolve root env' j
    ∙ rw (same, environment_lem resolve root env j)
        (settled (forced resolve root env j) (get j env) (defaulted resolve root env j)
          (defaulted resolve root env' j)
          (λ free.
            let table = get j (below (cache_of resolve root env) cache_table) in
            let old = sdk_of (cache_of resolve root env) env in
            let new = sdk_of (cache_of resolve root env) env' in
            rw (cache, scratch)
              (middle_none table (get j (sdk_defaults old)) (get j (sdk_defaults new))
                (get j (scratch_defaults (scratch_of resolve root env))) (sdk_none j old new)
                free)))
