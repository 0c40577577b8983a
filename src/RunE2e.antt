-- ===== src/RunE2e.antt =====
-- frontend/scripts/run-e2e.mjs: the script that starts the containers, runs the browser tests against them and takes the
-- containers down. What `spawnSync` gives for each command is a parameter, and so are the paths and the environment.
pub mod Laws
use vpnshiki.Prelude.{
  ℕ, none, some, [], ◌∷◌, true, false, Bool, List, Option, String, ◌++◌, if◌then◌else◌, ◌==◌,
  length,
}
use vpnshiki.Prelude.Dict.{get, set}
use vpnshiki.Text.{Text, codes, decimal}

-- What the script finds out about its surroundings before it starts.
pub record Paths : Type 0 where
  pub frontend_directory : Text
  pub project_directory : Text
  pub compose_file : Text
  pub e2e_compose_file : Text
  pub playwright_cli : Text
  pub exec_path : Text

abbrev pub or_default : Option Text → Text → Text
or_default none default = default
or_default (some value) default = value

-- `testEnvironment`, over `process.env`.
unfoldable pub test_environment : List (String × Text) → List (String × Text)
unfolding get set
test_environment env =
    let frontend_port = or_default (get "E2E_FRONTEND_PORT" env) (codes "18080") in
    set "E2E_BASE_URL" (codes "http://127.0.0.1:" ++ frontend_port) (
      set "E2E_ADMIN_PASSWORD" (codes "e2e-admin-password") (
        set "E2E_ADMIN_NAME" (codes "e2e-admin") (
          set "ADMIN_PASSWORD" (codes "e2e-admin-password") (
            set "ADMIN_NAME" (codes "e2e-admin") (
              set "FRONTEND_PORT" frontend_port (
                set "BACKEND_PORT" (or_default (get "E2E_BACKEND_PORT" env) (codes "18000")) (
                  set "POSTGRES_PORT" (or_default (get "E2E_POSTGRES_PORT" env) (codes "55432")) (
                    set "POSTGRES_PASSWORD" (codes "vpnshiki_e2e_password") (
                      set "POSTGRES_USER" (codes "vpnshiki_e2e")
                        (set "POSTGRES_DB" (codes "vpnshiki_e2e") env))))))))))

pub data Stdio : Type 0 where
  inherit ignore : Stdio

pub record Command : Type 0 where
  pub program : Text
  pub args : List Text
  pub cwd : Text
  pub stdio : Stdio

-- `spawnSync`: an error, or the status, which a process that a signal ended has not.
pub data Spawned : Type 0 where
  failed : (message : Text) → Spawned
  exited : (status : Option ℕ) → Spawned

-- The commands run so far and what was written to the standard error, the first first.
pub record Shell : Type 0 where
  pub commands : List Command
  pub written : List Text

pub data Outcome (A : Type 0) : Type 0 where
  value : A → Outcome A
  thrown : (message : Text) → Outcome A

abbrev pub Script : Type 0 → Type 0
Script A = Shell → Outcome A × Shell

infixl 5 ◌>>=◌ ◌>>◌
abbrev pub ◌>>=◌ : {A B : Type 0} → Script A → (A → Script B) → Script B
◌>>=◌ m f s = let (r, t) = m s in elim r [ value a ↦ f a t | thrown message ↦ (thrown message, t) ]

abbrev pub ◌>>◌ : {A B : Type 0} → Script A → Script B → Script B
m >> k = m >>= λ _. k

abbrev pub throw : {A : Type 0} → Text → Script A
throw message s = (thrown message, s)

abbrev nothing : Script (Unit {0})
nothing s = (value tt, s)

abbrev status_or_one : Option ℕ → ℕ
status_or_one none = 1
status_or_one (some status) = status

abbrev pub outcome : Spawned → Outcome ℕ
outcome (failed message) = thrown message
outcome (exited status) = value (status_or_one status)

abbrev check_started : ℕ → Script (Unit {0})
check_started code =
    if code == 0
    then nothing
    else throw (codes "Не удалось запустить E2E-стенд (код " ++ decimal code ++ codes ")")

-- `catch`: the message goes to the standard error, and the exit code stays 1.
abbrev pub caught : Outcome ℕ × Shell → ℕ × Shell
caught (value code, s) = (code, s)
caught (thrown message, s) = (1, record s { written = s.written ++ (message ++ b'\n' ∷ []) ∷ [] })

-- `finally`: an error in it is caught by nobody, and the process then ends with 1.
abbrev pub exit_code : ℕ → Outcome ℕ → ℕ
exit_code code (value _) = code
exit_code code (thrown message) = 1

module _ (paths : Paths) where
  -- `docker` with `composeArguments`, in the directory of the project.
  abbrev pub docker : List Text → Stdio → Command
  docker arguments stdio = record {
    program = codes "docker";
    args =
        codes "compose"
        ∷ codes "--project-name"
        ∷ codes "vpnshiki-e2e"
        ∷ codes "--file"
        ∷ paths.compose_file
        ∷ codes "--file"
        ∷ paths.e2e_compose_file
        ∷ arguments;
    cwd = paths.project_directory;
    stdio = stdio;
  }

  abbrev pub down : Stdio → Command
  down stdio = docker (codes "down" ∷ codes "--volumes" ∷ codes "--remove-orphans" ∷ []) stdio

  abbrev pub up : Command
  up =
      docker
        (codes "up"
          ∷ codes "--detach"
          ∷ codes "--build"
          ∷ codes "--wait"
          ∷ codes "--wait-timeout"
          ∷ codes "120"
          ∷ [])
        inherit

  abbrev pub tests : Command
  tests = record {
    program = paths.exec_path;
    args = paths.playwright_cli ∷ codes "test" ∷ [];
    cwd = paths.frontend_directory;
    stdio = inherit;
  }

-- The n-th command is answered by `spawn n`.
module _ (spawn : ℕ → Spawned) (paths : Paths) where
  unfoldable pub run : Command → Script ℕ
  run c s = (outcome (spawn (length s.commands)), record s { commands = s.commands ++ c ∷ [] })

  -- The body of `try`.
  unfoldable pub attempt : Script ℕ
  unfolding run decimal
  attempt = do
    run (down paths ignore)
    compose_exit_code ← run (up paths)
    check_started compose_exit_code
    run (tests paths)

  unfoldable pub cleanup : Script ℕ
  unfolding run
  cleanup = run (down paths inherit)

  abbrev pub finished : ℕ × Shell → ℕ × Shell
  unfolding cleanup
  finished (code, s) = let (r, t) = cleanup s in (exit_code code r, t)

  -- The exit code of the process, and what it did.
  unfoldable pub run_e2e : ℕ × Shell
  unfolding attempt cleanup
  run_e2e = finished (caught (attempt (record { commands = []; written = [] })))
