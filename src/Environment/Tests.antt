-- ===== src/Environment/Tests.antt =====
-- The environment of a user with a cache of their own and an isolated home.
use artbox.Base.{ℕ, List, [], ◌∷◌, some, ◌≡◌, refl}
use artbox.Base.Text.{codes, ◌≟◌}
use artbox.Paths.{join}
use artbox.Tree.{file_at, write_file, write_all}
use artbox.Tree.Writes.{or_else}
use artbox.Environment.{
  Env, get, set_default, set_defaults, below, directories, sdk_of, isolate, environment,
}
use artbox.Environment.Configured.{forced, defaulted, environment_lem}
use artbox.Environment.Idempotent.{environment_again}

abbrev same : List ℕ → List ℕ
same path = path

abbrev user : Env
user =
    (codes "CARGO_HOME", codes "/u/cargo")
    ∷ (codes "ARTBOX_CACHE_DIR", codes "/big")
    ∷ (codes "ANDROID_SDK_ROOT", codes "/sdk")
    ∷ (codes "HOME", codes "/home/u")
    ∷ (codes "ARTBOX_ISOLATE_HOME", codes "1")
    ∷ []

abbrev made : Env
made = environment same (codes "/r") user

made_test :
    (get (codes "CARGO_HOME") made ≡ some (codes "/u/cargo"))
    × (get (codes "GOCACHE") made ≡ some (codes "/big/go-cache"))
    × (get (codes "ANDROID_HOME") made ≡ some (codes "/sdk"))
    × (get (codes "TMP") made ≡ some (codes "/r/.tmp"))
    × (get (codes "HOME") made ≡ some (codes "/big/home"))
unfolding environment isolate sdk_of set_defaults set_default below directories write_all write_file
    file_at join ◌≟◌
made_test = (refl, refl, refl, refl, refl)

environment_lem_example :
    get (codes "GOCACHE") made
    ≡ or_else
        (forced same (codes "/r") user (codes "GOCACHE"))
        (or_else (get (codes "GOCACHE") user) (defaulted same (codes "/r") user (codes "GOCACHE")))
environment_lem_example = environment_lem same (codes "/r") user (codes "GOCACHE")

environment_again_example :
    get (codes "GOCACHE") (environment same (codes "/r") made) ≡ get (codes "GOCACHE") made
environment_again_example =
    environment_again same (codes "/r") user (codes "GOCACHE") (λ path. refl)
