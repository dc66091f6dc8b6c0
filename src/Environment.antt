-- ===== src/Environment.antt =====
-- scripts/environment.py: `environment`, the variables that the scripts give to what they start. Where
-- `Path(text).expanduser().resolve()` leads is a parameter; paths are those of POSIX.
pub mod Configured
pub mod Idempotent
mod Tests
use artbox.Base.{
  ℕ, ◌||◌, if◌then◌else◌, Bool, true, false, Option, none, some, String, List, [], ◌∷◌,
}
use artbox.Base.Text.{codes, ◌≟◌}
use artbox.Paths.{is_nil, join}
use artbox.Tree.{File, file_at, write_file, write_all}

-- A dict of texts, in the order of insertion; it is read and written like the files of a tree.
abbrev pub Env : Type 0
Env = List (List ℕ × List ℕ)

-- `env.get(key)`
abbrev pub get : List ℕ → Env → Option (List ℕ)
get key env = file_at key env

-- `env[key] = value`
abbrev pub put : List ℕ → List ℕ → Env → Env
put key value env = write_file key value env

abbrev pub value_or : Option (List ℕ) → List ℕ → List ℕ
value_or none fallback = fallback
value_or (some value) fallback = value

abbrev keep_or_put : Option (List ℕ) → List ℕ → List ℕ → Env → Env
keep_or_put none key value env = put key value env
keep_or_put (some held) key value env = env

-- `env.setdefault(key, value)`
unfoldable pub set_default : List ℕ → List ℕ → Env → Env
set_default key value env = keep_or_put (get key env) key value env

-- A loop of `env.setdefault(key, value)`.
unfoldable pub set_defaults : Env → Env → Env
set_defaults [] env = env
set_defaults (d ∷ ds) env = set_defaults ds (set_default d.0 d.1 env)

-- `a or b`, where a missing variable is `None`.
abbrev pub or_text : Option (List ℕ) → List ℕ → List ℕ
or_text none fallback = fallback
or_text (some value) fallback = if is_nil value then fallback else value

abbrev entry : String → String → List ℕ × List ℕ
entry key subdirectory = (codes key, codes subdirectory)

abbrev pub cache_table : Env
cache_table =
    entry "XDG_CACHE_HOME" "cache"
    ∷ entry "PIP_CACHE_DIR" "pip"
    ∷ entry "PYTHONPYCACHEPREFIX" "python-pycache"
    ∷ entry "PYTHONUSERBASE" "python-user"
    ∷ entry "npm_config_cache" "npm-cache"
    ∷ entry "CARGO_HOME" "cargo"
    ∷ entry "RUSTUP_HOME" "rustup"
    ∷ entry "GRADLE_USER_HOME" "gradle"
    ∷ entry "MAVEN_USER_HOME" "maven"
    ∷ entry "ANDROID_USER_HOME" "android-user"
    ∷ entry "ANDROID_AVD_HOME" "android-avd"
    ∷ entry "CCACHE_DIR" "ccache"
    ∷ entry "SCCACHE_DIR" "sccache"
    ∷ entry "NUGET_PACKAGES" "nuget"
    ∷ entry "UV_CACHE_DIR" "uv-cache"
    ∷ entry "UV_PYTHON_INSTALL_DIR" "uv-python"
    ∷ entry "HOMEBREW_CACHE" "homebrew-cache"
    ∷ entry "HOMEBREW_LOGS" "homebrew-logs"
    ∷ entry "GOCACHE" "go-cache"
    ∷ entry "GOMODCACHE" "go-mod"
    ∷ entry "CLANG_MODULE_CACHE_PATH" "clang-modules"
    ∷ entry "SWIFT_MODULECACHE_PATH" "swift-modules"
    ∷ []

abbrev pub home_table : Env
home_table =
    entry "APPDATA" "appdata"
    ∷ entry "LOCALAPPDATA" "localappdata"
    ∷ entry "XDG_CONFIG_HOME" "config"
    ∷ entry "XDG_DATA_HOME" "data"
    ∷ entry "XDG_STATE_HOME" "state"
    ∷ []

-- `str(cache / subdir)` for the entries of a table.
unfoldable pub below : List ℕ → Env → Env
below cache [] = []
below cache (d ∷ ds) = (d.0, join cache d.1) ∷ below cache ds

abbrev pub fixed : Env
fixed =
    entry "PYTHONDONTWRITEBYTECODE" "1"
    ∷ entry "CMAKE_EXPORT_NO_PACKAGE_REGISTRY" "ON"
    ∷ entry "CMAKE_EXPORT_PACKAGE_REGISTRY" "OFF"
    ∷ []

abbrev pub temp_entries : List ℕ → Env
temp_entries scratch =
    (codes "TEMP", scratch) ∷ (codes "TMP", scratch) ∷ (codes "TMPDIR", scratch) ∷ []

abbrev pub home_entries : List ℕ → Env
home_entries home =
    (codes "HOME", home) ∷ (codes "USERPROFILE", home) ∷ (codes "CFFIXED_USER_HOME", home) ∷ []

module _ (resolve : List ℕ → List ℕ) (root : List ℕ) where
  -- `directory(key, default)`: the path that it returns.
  abbrev pub directory_path : Env → List ℕ → String → List ℕ
  directory_path env key default = resolve (value_or (get key env) (join root (codes default)))

  -- The variables that `directory` sets, and the directories that it makes, one after the other.
  abbrev pub cache_of : Env → List ℕ
  cache_of env = directory_path env (codes "ARTBOX_CACHE_DIR") ".env"

  abbrev pub scratch_of : Env → List ℕ
  scratch_of env = directory_path env (codes "ARTBOX_TEMP_DIR") ".tmp"

  unfoldable pub directories : Env → Env
  directories env =
      (codes "ARTBOX_ROOT", root)
      ∷ (codes "ARTBOX_CACHE_DIR", cache_of env)
      ∷ (codes "ARTBOX_TEMP_DIR", scratch_of env)
      ∷ (codes "ARTBOX_BUILD_DIR", directory_path env (codes "ARTBOX_BUILD_DIR") "build")
      ∷ (
        codes "ARTBOX_ARTIFACTS_DIR",
        directory_path env (codes "ARTBOX_ARTIFACTS_DIR") "artifacts",
      )
      ∷ []

-- `sdk`
unfoldable pub sdk_of : List ℕ → Env → List ℕ
sdk_of cache env =
    or_text (get (codes "ANDROID_HOME") env)
      (or_text (get (codes "ANDROID_SDK_ROOT") env) (join cache (codes "android-sdk")))

abbrev pub sdk_defaults : List ℕ → Env
sdk_defaults sdk = (codes "ANDROID_HOME", sdk) ∷ (codes "ANDROID_SDK_ROOT", sdk) ∷ []

abbrev pub scratch_defaults : List ℕ → Env
scratch_defaults scratch =
    (codes "HOMEBREW_TEMP", scratch)
    ∷ (codes "LLVM_PROFILE_FILE", join scratch (codes "coverage-%p.profraw"))
    ∷ []

abbrev pub is_one : Option (List ℕ) → Bool
is_one none = false
is_one (some value) = value ≟ codes "1"

unfoldable pub isolate : List ℕ → Env → Env
isolate cache env =
    if is_one (get (codes "ARTBOX_ISOLATE_HOME") env)
    then write_all (below cache home_table)
        (write_all (home_entries (join cache (codes "home"))) env)
    else env

unfoldable pub environment : (List ℕ → List ℕ) → List ℕ → Env → Env
environment resolve root env =
    let cache = cache_of resolve root env in
    let scratch = scratch_of resolve root env in
    let placed = write_all (temp_entries scratch) (write_all (directories resolve root env) env) in
    let cached = set_defaults (below cache cache_table) placed in
    let sdk = set_defaults (sdk_defaults (sdk_of cache cached)) cached in
    let scratched = set_defaults (scratch_defaults scratch) sdk in
    isolate cache (write_all fixed scratched)

-- `changed` of `main`, against the variables of the process.
unfoldable pub changed : Env → Env → Env
changed process [] = []
changed process (e ∷ es) =
    let rest = changed process es in
    elim (get e.0 process) [ none ↦ e ∷ rest | some held ↦ if held ≟ e.1 then rest else e ∷ rest ]
