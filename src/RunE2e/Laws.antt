-- ===== src/RunE2e/Laws.antt =====
-- frontend/scripts/run-e2e.mjs: what the script promises.
use vpnshiki.Text.{Text, codes}
use vpnshiki.Prelude.Dict.{get, get-set}
use vpnshiki.Prelude.{refl, List, String, ◌++◌, ℕ, some, ◌≡◌, ◌↔◌, arith, get_last?}
use vpnshiki.RunE2e.{
  test_environment, or_default, Spawned, failed, exited, Paths, run_e2e, attempt, cleanup, run,
  down, inherit,
}

-- The command could be started.
abbrev pub IsStarted : Spawned → Type 0
IsStarted (failed message) = ⊥
IsStarted (exited status) = Unit

-- However the commands end, the script takes the containers down last, with their volumes.
get_last?-run_e2e :
    (spawn : ℕ → Spawned) (paths : Paths)
    → get_last? (run_e2e spawn paths).1.commands ≡ some (down paths inherit)
unfolding run_e2e attempt cleanup run
get_last?-run_e2e spawn paths = ground arith

-- The script ends with 0 exactly if every command could be started, the containers came up and the tests passed.
run_e2e-zero_iff :
    (spawn : ℕ → Spawned) (paths : Paths)
    → ((run_e2e spawn paths).0 ≡ 0) ↔ (
        IsStarted (spawn 0)
        × (spawn 1 ≡ exited (some 0))
        × (spawn 2 ≡ exited (some 0))
        × IsStarted (spawn 3))
unfolding run_e2e attempt cleanup run
run_e2e-zero_iff spawn paths = ground arith

-- However the commands end, the script takes the containers down last, with their volumes; and it ends with 0 exactly if
-- every command could be started, the containers came up and the tests passed.
pub run_e2e_lem :
    (spawn : ℕ → Spawned) (paths : Paths)
    → (get_last? (run_e2e spawn paths).1.commands ≡ some (down paths inherit))
      × (((run_e2e spawn paths).0 ≡ 0) ↔ (
          IsStarted (spawn 0)
          × (spawn 1 ≡ exited (some 0))
          × (spawn 2 ≡ exited (some 0))
          × IsStarted (spawn 3)))
run_e2e_lem spawn paths = (get_last?-run_e2e spawn paths, run_e2e-zero_iff spawn paths)

-- The tests are pointed at the port on which the frontend is published, whatever the environment holds.
pub test_environment-port :
    (env : List (String × Text))
    → (port : Text) × (get "FRONTEND_PORT" (test_environment env) ≡ some port)
      × (get "E2E_BASE_URL" (test_environment env) ≡ some (codes "http://127.0.0.1:" ++ port))
unfolding test_environment
test_environment-port env =
    let port = or_default (get "E2E_FRONTEND_PORT" env) (codes "18080") in
    (port, simp get-set refl, simp get-set refl)
