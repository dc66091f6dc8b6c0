-- ===== src/Environment/Configured.antt =====
-- scripts/environment.py: what each variable is in the environment that `environment` returns.
use artbox.Base.{
  ℕ, if◌then◌else◌, Option, none, some, List, [], ◌∷◌, ◌≡◌, refl, sym, ap, ◌∙◌, inl, inr,
  Bool-cases, Option-cases,
}
use artbox.Base.Text.{codes, ◌≟◌, ≟_iff}
use artbox.Paths.{join, contains}
use artbox.Sources.Plan.{Distinct}
use artbox.Tree.{file_at, write_all, paths_of}
use artbox.Tree.Writes.{
  or_else, file_at-write_file_same, file_at-write_file_other, file_at-write_all,
}
use artbox.Environment.{
  Env, get, set_default, set_defaults, cache_table, home_table, below, fixed, temp_entries,
  home_entries, directories, cache_of, scratch_of, sdk_of, sdk_defaults, scratch_defaults, is_one,
  isolate, environment,
}

pub or_else-none : (o : Option (List ℕ)) → or_else o none ≡ o
or_else-none none = refl
or_else-none (some a) = refl

or_else_assoc : (o p q : Option (List ℕ)) → or_else (or_else o p) q ≡ or_else o (or_else p q)
or_else_assoc none p q = refl
or_else_assoc (some a) p q = refl

get-set_default :
    (j key value : List ℕ) (env : Env)
    → get j (set_default key value env) ≡ or_else (get j env) (if j ≟ key then some value else none)
unfolding set_default
get-set_default j key value env = elim (Option-cases (get key env)) [
  | inr (held, there) ↦ elim (Bool-cases (j ≟ key)) [
    | inl same ↦ let e : j ≡ key = (≟_iff j key).0 same in rw there (rw e (rw there refl))
    | inr other ↦ rw (there, other) (sym (or_else-none (get j env)))
  ]
  | inl absent ↦ elim (Bool-cases (j ≟ key)) [
    | inl same ↦
        let e : j ≡ key = (≟_iff j key).0 same in
        rw absent (rw same (rw e (file_at-write_file_same key value env ∙ rw absent refl)))
    | inr other ↦
        rw absent (
          rw other
            (file_at-write_file_other j key value env other ∙ sym (or_else-none (get j env))))
  ]
]

-- A loop of defaults fills in what is missing.
get-set_defaults :
    (j : List ℕ) (table env : Env)
    → get j (set_defaults table env) ≡ or_else (get j env) (get j table)
unfolding set_defaults file_at
get-set_defaults j [] env = sym (or_else-none (get j env))
get-set_defaults j (d ∷ ds) env =
    let rest = get-set_defaults j ds (set_default d.0 d.1 env) in
    elim (Bool-cases (j ≟ d.0)) [
      | inl same ↦ rw same (
          rest
          ∙ rw (get-set_default j d.0 d.1 env, same)
              (or_else_assoc (get j env) (some d.1) (get j ds)))
      | inr other ↦
          rw other
            (rest ∙ rw (get-set_default j d.0 d.1 env, other) (rw (or_else-none (get j env)) refl))
    ]

-- Where a variable gets its value from, the first that has one.
abbrev pub home_of : Env → List ℕ → Env
home_of env cache =
    if is_one (get (codes "ARTBOX_ISOLATE_HOME") env)
    then write_all (below cache home_table) (home_entries (join cache (codes "home")))
    else []

module _ (resolve : List ℕ → List ℕ) (root : List ℕ) (env : Env) where
  abbrev pub forced : List ℕ → Option (List ℕ)
  forced j = or_else (get j (home_of env (cache_of resolve root env))) (
      or_else (get j fixed) (
        or_else (get j (temp_entries (scratch_of resolve root env)))
          (get j (directories resolve root env))))

  abbrev pub defaulted : List ℕ → Option (List ℕ)
  defaulted j = or_else (get j (below (cache_of resolve root env) cache_table)) (
      or_else (get j (sdk_defaults (sdk_of (cache_of resolve root env) env)))
        (get j (scratch_defaults (scratch_of resolve root env))))

  abbrev placed_env : Env
  placed_env =
      write_all (temp_entries (scratch_of resolve root env))
        (write_all (directories resolve root env) env)

  get-placed_env :
      (j : List ℕ)
      → get j placed_env
        ≡ or_else
            (get j (temp_entries (scratch_of resolve root env)))
            (or_else (get j (directories resolve root env)) (get j env))
  unfolding directories contains paths_of ◌≟◌
  get-placed_env j =
      let cache = cache_of resolve root env in
      let inner =
        file_at-write_all j (directories resolve root env) env
          (refl, (refl, (refl, (refl, (refl, tt))))) in
      file_at-write_all j (temp_entries (scratch_of resolve root env))
        (write_all (directories resolve root env) env) (refl, (refl, (refl, tt)))
      ∙ rw inner refl

  abbrev cached : Env
  cached = set_defaults (below (cache_of resolve root env) cache_table) placed_env

  get-cached :
      (j : List ℕ)
      → get j cached
        ≡ or_else (get j placed_env) (get j (below (cache_of resolve root env) cache_table))
  get-cached j = get-set_defaults j (below (cache_of resolve root env) cache_table) placed_env

  -- The two variables of the SDK are read before any default of theirs.
  sdk_same : sdk_of (cache_of resolve root env) cached ≡ sdk_of (cache_of resolve root env) env
  unfolding sdk_of
  sdk_same =
      let home : get (codes "ANDROID_HOME") cached ≡ get (codes "ANDROID_HOME") env =
        get-cached (codes "ANDROID_HOME")
        ∙ rw (get-placed_env (codes "ANDROID_HOME")) (
            unfold file_at directories below ◌≟◌ in
            or_else-none (get (codes "ANDROID_HOME") env)) in
      let sdk_root : get (codes "ANDROID_SDK_ROOT") cached ≡ get (codes "ANDROID_SDK_ROOT") env =
        get-cached (codes "ANDROID_SDK_ROOT")
        ∙ rw (get-placed_env (codes "ANDROID_SDK_ROOT")) (
            unfold file_at directories below ◌≟◌ in
            or_else-none (get (codes "ANDROID_SDK_ROOT") env)) in
      rw (home, sdk_root) refl

  abbrev scratched : Env
  scratched =
      set_defaults (scratch_defaults (scratch_of resolve root env))
        (set_defaults (sdk_defaults (sdk_of (cache_of resolve root env) cached)) cached)

  get-scratched : (j : List ℕ) → get j scratched ≡ or_else (get j placed_env) (defaulted j)
  get-scratched j =
      let sdk = sdk_defaults (sdk_of (cache_of resolve root env) env) in
      let scratch = scratch_defaults (scratch_of resolve root env) in
      let table = get j (below (cache_of resolve root env) cache_table) in
      rw sdk_same (
        get-set_defaults j scratch (set_defaults sdk cached)
        ∙ ap (λ (o : Option (List ℕ)). or_else o (get j scratch)) (get-set_defaults j sdk cached)
        ∙ or_else_assoc (get j cached) (get j sdk) (get j scratch)
        ∙ ap (λ (o : Option (List ℕ)). or_else o (or_else (get j sdk) (get j scratch)))
            (get-cached j)
        ∙ or_else_assoc (get j placed_env) table (or_else (get j sdk) (get j scratch)))

  abbrev fixed_env : Env
  fixed_env = write_all fixed scratched

  get-fixed_env :
      (j : List ℕ)
      → get j fixed_env ≡ or_else (get j fixed) (or_else (get j placed_env) (defaulted j))
  unfolding contains paths_of ◌≟◌
  get-fixed_env j =
      file_at-write_all j fixed scratched (refl, (refl, (refl, tt))) ∙ rw (get-scratched j) refl

  isolate_same :
      is_one (get (codes "ARTBOX_ISOLATE_HOME") fixed_env)
      ≡ is_one (get (codes "ARTBOX_ISOLATE_HOME") env)
  isolate_same =
      let here : get (codes "ARTBOX_ISOLATE_HOME") fixed_env
          ≡ get (codes "ARTBOX_ISOLATE_HOME") env =
        get-fixed_env (codes "ARTBOX_ISOLATE_HOME")
        ∙ rw (get-placed_env (codes "ARTBOX_ISOLATE_HOME")) (
            unfold file_at directories below ◌≟◌ in
            or_else-none (get (codes "ARTBOX_ISOLATE_HOME") env)) in
      ap is_one here

regroup :
    (a b c d e f : Option (List ℕ))
    → or_else a (or_else b (or_else (or_else c (or_else d e)) f))
      ≡ or_else (or_else a (or_else b (or_else c d))) (or_else e f)
regroup (some x) b c d e f = refl
regroup none (some x) c d e f = refl
regroup none none (some x) d e f = refl
regroup none none none (some x) e f = refl
regroup none none none none e f = refl

module _ (cache : List ℕ) where
  homes :
      (j : List ℕ) (env : Env)
      → get j (
          write_all
            (below cache home_table)
            (write_all (home_entries (join cache (codes "home"))) env))
        ≡ or_else
            (get j (write_all (below cache home_table) (home_entries (join cache (codes "home")))))
            (get j env)
  unfolding contains paths_of below ◌≟◌
  homes j env =
      let home = home_entries (join cache (codes "home")) in
      let table = below cache home_table in
      let apart : Distinct (paths_of table) = (refl, (refl, (refl, (refl, (refl, tt))))) in
      file_at-write_all j table (write_all home env) apart
      ∙ ap (λ (o : Option (List ℕ)). or_else (get j table) o)
          (file_at-write_all j home env (refl, (refl, (refl, tt))))
      ∙ sym (or_else_assoc (get j table) (get j home) (get j env))
      ∙ ap (λ (o : Option (List ℕ)). or_else o (get j env))
          (sym (file_at-write_all j table home apart))

-- Every variable of `environment` has the first value of these that there is: that of an
-- isolated home, which is used exactly when ARTBOX_ISOLATE_HOME is 1, the fixed settings, the
-- three temporary directories, the four project directories and the root, the variable as the
-- user set it, and the defaults below the cache, for the SDK and below the scratch directory.
pub environment_lem :
    (resolve : List ℕ → List ℕ) (root : List ℕ) (env : Env) (j : List ℕ)
    → get j (environment resolve root env)
      ≡ or_else (forced resolve root env j) (or_else (get j env) (defaulted resolve root env j))
unfolding environment isolate file_at
environment_lem resolve root env j =
    let cache = cache_of resolve root env in
    let rest = get-fixed_env resolve root env j ∙ rw (get-placed_env resolve root env j) refl in
    let fixed' = get j fixed in
    let temp = get j (temp_entries (scratch_of resolve root env)) in
    let dirs = get j (directories resolve root env) in
    let tail = or_else (get j env) (defaulted resolve root env j) in
    let front : (home : Option (List ℕ))
        → or_else home (
            or_else fixed'
              (or_else (or_else temp (or_else dirs (get j env))) (defaulted resolve root env j)))
          ≡ or_else (or_else home (or_else fixed' (or_else temp dirs))) tail =
      λ home. regroup home fixed' temp dirs (get j env) (defaulted resolve root env j) in
    elim (Bool-cases (is_one (get (codes "ARTBOX_ISOLATE_HOME") env))) [
      | inl alone ↦ rw (isolate_same resolve root env) (
          rw alone (
            homes cache j (fixed_env resolve root env)
            ∙ rw rest (
                front (
                  get j (
                    write_all (below cache home_table)
                      (home_entries (join cache (codes "home"))))))))
      | inr shared ↦ rw (isolate_same resolve root env) (rw shared (rest ∙ front none))
    ]
