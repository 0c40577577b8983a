-- ===== src/Tests/Scripts.antt =====
-- The script that runs the browser tests.
use vpnshiki.Prelude.{ℕ, zero, suc, some, ◌≡◌, ◌↔◌, refl, get_last?, length}
use vpnshiki.Text.{codes}
use vpnshiki.RunE2e.{Spawned, exited, Paths, run_e2e, down, inherit}
use vpnshiki.RunE2e.Laws.{IsStarted, run_e2e_lem}

abbrev paths : Paths
paths = record {
  frontend_directory = codes "/app/frontend";
  project_directory = codes "/app";
  compose_file = codes "/app/compose.yaml";
  e2e_compose_file = codes "/app/compose.e2e.yaml";
  playwright_cli = codes "cli.js";
  exec_path = codes "node";
}

-- The containers do not come up.
abbrev no_containers : ℕ → Spawned
no_containers zero = exited (some 0)
no_containers (suc zero) = exited (some 17)
no_containers _ = exited (some 0)

no_tests : length (run_e2e no_containers paths).1.commands ≡ 3
unfolding run_e2e
no_tests = refl

code_one : (run_e2e no_containers paths).0 ≡ 1
unfolding run_e2e
code_one = refl

run_e2e_lem_example :
    (get_last? (run_e2e no_containers paths).1.commands ≡ some (down paths inherit))
    × (((run_e2e no_containers paths).0 ≡ 0) ↔ (
        IsStarted (no_containers 0)
        × (no_containers 1 ≡ exited (some 0))
        × (no_containers 2 ≡ exited (some 0))
        × IsStarted (no_containers 3)))
run_e2e_lem_example = run_e2e_lem no_containers paths
