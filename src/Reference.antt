-- ===== src/Reference.antt =====
-- scripts/binder_reference.py: `run_native`, which loads the pinned Binder module on its Linux host,
-- runs the fixture in a private binderfs, and cleans up. What commands answer, the reads of
-- the reference count, JSON text and the contents of files are parameters; the clock is the number of
-- rounds that begin before the deadline.
pub mod Native
pub mod Unmounted
pub mod Went
pub mod Logged
pub mod Returned
pub mod Expected
pub mod Compare
pub mod Compared
pub mod Archive
pub mod Member
pub mod Unpacked
pub mod Prepare
pub mod Prepared
mod Tests
mod PackageTests
use artbox.Base.{
  ℕ, zero, suc, ◌+◌, ◌-◌, ◌==◌, ◌&&◌, ◌||◌, not, if◌then◌else◌, Bool, true, false, Option, none,
  some, String, List, [], ◌∷◌, ◌++◌, Result, ok, err,
}
use artbox.Base.Int.{ℤ, pos, negsuc}
use artbox.Base.Text.{codes, ◌≟◌}
use artbox.Paths.{is_nil, parts, join}
use artbox.Sources.Archive.{starts_with}
use artbox.Report.Value.{Value, Fields, no_fields, field, integer, boolean, object, same_value}
use artbox.Shell.{
  begins_with, Act, ◌>>=◌, ◌>>◌, give, demand, change, try_finally, Ran, Command, is_zero, strip,
  first_word, join_texts, log_entry,
}

-- `spec`, as far as it is read here.
pub record Spec : Type 0 where
  pub kernel : List ℕ
  pub architecture : List ℕ
  pub module_path : List ℕ

-- `commands`
pub record Tools : Type 0 where
  pub cc : List ℕ
  pub sudo : List ℕ
  pub insmod : List ℕ
  pub modinfo : List ℕ
  pub mount : List ℕ
  pub umount : List ℕ

-- `{name: shutil.which(name) for name in required}` where all are found.
abbrev with_tools :
    Option (List ℕ)
    → Option (List ℕ)
    → Option (List ℕ)
    → Option (List ℕ)
    → Option (List ℕ)
    → Option (List ℕ)
    → Option Tools
with_tools (some cc) (some sudo) (some insmod) (some modinfo) (some mount) (some umount) =
    some (record {
      cc = cc;
      sudo = sudo;
      insmod = insmod;
      modinfo = modinfo;
      mount = mount;
      umount = umount;
    })
with_tools _ _ _ _ _ _ = none

unfoldable pub tools_of : (List ℕ → Option (List ℕ)) → Option Tools
tools_of which =
    with_tools (which (codes "cc")) (which (codes "sudo")) (which (codes "insmod"))
      (which (codes "modinfo")) (which (codes "mount")) (which (codes "umount"))

-- The eight commands of the code.
pub data Invocation : Type 0 where
  vermagic license compile insmod mount exercise umount probe : Invocation

-- `PurePosixPath(path).name`
abbrev last_or : List ℕ → List (List ℕ) → List ℕ
last_or word [] = word
last_or word (w ∷ ws) = last_or w ws

abbrev pub name_of : List ℕ → List ℕ
name_of path = last_or [] (parts path)

-- The paths of a run.
pub record Places : Type 0 where
  pub root : List ℕ
  pub build : List ℕ
  pub installed : List ℕ

abbrev pub place_in : List ℕ → String → List ℕ
place_in directory name = join directory (codes name)

abbrev pub executable_of : Places → List ℕ
executable_of places = place_in places.build "binder-device-reference"

abbrev pub mount_of : Places → List ℕ
mount_of places = place_in places.build "binderfs"

abbrev pub module_of : Spec → Places → List ℕ
module_of spec places = join places.installed (name_of spec.module_path)

abbrev sources : List ℕ → List (List ℕ)
sources root =
    place_in root "fixtures/binder-device/check.c"
    ∷ place_in root "fixtures/binder-file/check.c"
    ∷ place_in root "fixtures/binder-mapping/check.c"
    ∷ place_in root "fixtures/binder-poll/check.c"
    ∷ place_in root "fixtures/binder-transaction/check.c"
    ∷ place_in root "core/src/binder_wire.c"
    ∷ place_in root "tests/native_binder_device.c"
    ∷ place_in root "tests/native_binder_wait.c"
    ∷ place_in root "tests/native_binder_epoll.c"
    ∷ []

-- The arguments of the `invoke` calls.
unfoldable pub words : Spec → Tools → Places → Invocation → Command
words spec tools places Invocation.vermagic =
    tools.modinfo ∷ codes "-F" ∷ codes "vermagic" ∷ module_of spec places ∷ []
words spec tools places Invocation.license =
    tools.modinfo ∷ codes "-F" ∷ codes "license" ∷ module_of spec places ∷ []
words spec tools places Invocation.compile =
    tools.cc
    ∷ codes "-std=c11"
    ∷ codes "-D_DEFAULT_SOURCE"
    ∷ codes "-O2"
    ∷ codes "-Wall"
    ∷ codes "-Wextra"
    ∷ codes "-Werror"
    ∷ codes "-I"
    ∷ place_in places.root "core/include"
    ∷ (sources places.root ++ codes "-pthread" ∷ codes "-o" ∷ executable_of places ∷ [])
words spec tools places Invocation.insmod =
    tools.sudo ∷ codes "-n" ∷ tools.insmod ∷ module_of spec places ∷ codes "devices=" ∷ []
words spec tools places Invocation.mount =
    tools.sudo
    ∷ codes "-n"
    ∷ tools.mount
    ∷ codes "-t"
    ∷ codes "binder"
    ∷ codes "-o"
    ∷ codes "max=1"
    ∷ codes "binder"
    ∷ mount_of places
    ∷ []
words spec tools places Invocation.exercise =
    tools.sudo
    ∷ codes "-n"
    ∷ executable_of places
    ∷ place_in (mount_of places) "binder-control"
    ∷ place_in (mount_of places) "artbox"
    ∷ []
words spec tools places Invocation.umount =
    tools.sudo ∷ codes "-n" ∷ tools.umount ∷ mount_of places ∷ []
words spec tools places Invocation.probe =
    tools.sudo ∷ codes "-n" ∷ executable_of places ∷ codes "--probe-module-unload" ∷ []

-- What was asked of the host, the newest first, with the answers.
abbrev pub History : Type 0
History = List (Invocation × Result Ran)

-- The variables of the function: `logs`, `loaded` and `mounted`; how often the reference count was
-- read; and what was written to `reference.log`.
pub record State : Type 0 where
  pub history : History
  pub logs : List (List ℕ)
  pub loaded : Bool
  pub mounted : Bool
  pub reads : ℕ
  pub log : Option (List ℕ)

abbrev pub no_run : State
no_run = record { history = []; logs = []; loaded = false; mounted = false; reads = 0; log = none }

-- The dict that is returned; the last is `cleanup['unload_probe']`.
pub record Evidence : Type 0 where
  pub result : Value
  pub vermagic : List ℕ
  pub module_license : List ℕ
  pub runner_sha256 : List ℕ
  pub unload_probe : Option Value

-- `re.findall(r'\bCHECK\(', text)` counted; `after_word` is whether the character before is in `\w`.
unfoldable pub count_checks : (ℕ → Bool) → Bool → List ℕ → ℕ
count_checks is_word after_word [] = 0
count_checks is_word after_word (c ∷ cs) =
    let rest = count_checks is_word (is_word c) cs in
    if not after_word && begins_with (codes "CHECK(") (c ∷ cs) then suc rest else rest

-- The count less one.
abbrev pub less_one : ℕ → ℤ
less_one zero = negsuc 0
less_one (suc n) = pos n

abbrev number : String → ℤ → Fields → Fields
number key n rest = field (codes key) (integer n) rest

abbrev affirmed : String → Fields → Fields
affirmed key rest = field (codes key) (boolean true) rest

-- The result that is expected of the fixture.
unfoldable pub expected_native : ℤ → ℤ → ℤ → Value
expected_native cases file_cases mapping_cases = object (
    number "protocol" (pos 8) (
      number "cases" cases (
        number "file_cases" file_cases (
          number "mapping_cases" mapping_cases (
            affirmed "same_pid_rejected" (
              affirmed "threaded_ping_pong" (
                number "death_cases" (pos 3) (
                  affirmed "object_handle_lifecycle" (
                    affirmed "oneway_lifecycle" (
                      affirmed "node_info_lifecycle" (
                        number "wait_cases" (pos 4) (
                          affirmed "blocking_threaded_ping_pong" (
                            number "poll_cases" (pos 31) (
                              affirmed "readiness_lifecycle" (
                                number "epoll_snapshot_cases" (pos 31) (
                                  affirmed "epoll_registration_controls" (
                                    affirmed "epoll_death_wakeup" (
                                      affirmed "epoll_mapped_target_lifetime" (
                                        affirmed "fresh_binderfs_context"
                                          (affirmed "passed" no_fields))))))))))))))))))))

-- `{'result': -1, 'errno': 16}`
abbrev pub expected_unload : Value
expected_unload = object (number "result" (negsuc 0) (number "errno" (pos 16) no_fields))
