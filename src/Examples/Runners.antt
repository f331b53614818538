-- ===== src/Examples/Runners.antt =====
-- Concrete inputs: a runner of two nodes, over an ssh server that accepts everything.
use jepsen_in_cpp.Prelude.{
  ℕ, String, true, none, some, List, [], ◌∷◌, inl, inr, ◌≡◌, refl, ◌>>=◌, ◌>>◌, pure, lift, done,
  fault, exits, out_of_fuel,
}
use jepsen_in_cpp.Prelude.Int.{pos}
use jepsen_in_cpp.Generator.Types.{null}
use jepsen_in_cpp.Ssh.Construction.{SshRemote}
use jepsen_in_cpp.Runner.Remotes.{SshInfo, IsRemoteOf}
use jepsen_in_cpp.Runner.Setup.{
  Os, RunnerSetup, new_runner, os_init_remotes, ubuntu_setup, ubuntu_teardown, ubuntu-finds_remotes,
}
use jepsen_in_cpp.Examples.Servers.{accepting}

abbrev login : SshInfo
login = record {
  username = "root";
  password = "secret";
  sudo_password = "secret";
  port = pos 22;
  private_key_path = "";
  strict_host_key_checking = true;
}

-- The second node is listed twice.
abbrev nodes : List String
nodes = "n1" ∷ "n2" ∷ "n2" ∷ []

abbrev made : (RunnerSetup ℕ ℕ (SshRemote accepting)) × ℕ
unfolding new_runner ◌>>=◌ ◌>>◌ lift pure
made = elim (new_runner {S = ℕ} {C = ℕ} accepting (λ name. pos 1) 9 nodes 5 login true 0) [
  | done r ↦ r
  | fault ↦ (bare, 0)
  | exits n ↦ (bare, 0)
  | out_of_fuel ↦ (bare, 0)
]
  where
    bare : RunnerSetup ℕ ℕ (SshRemote accepting)
    bare = record {
      nodes = [];
      concurrency = 0;
      ssh = login;
      leave_db_running = true;
      remotes = [];
      os = none;
      db = none;
      generator = null;
      checker = none;
    }

abbrev ubuntu : Os (SshRemote accepting)
ubuntu = record { remotes = [] }

ubuntu-finds_remotes_example :
    let ready = os_init_remotes made.0.remotes ubuntu in
    (remote : SshRemote accepting) × IsRemoteOf accepting (λ name. pos 1) 9 login ("n2", remote)
    × (ubuntu_setup "n2" ready ≡ (true, some remote, ready))
    × (ubuntu_teardown "n2" ready ≡ (true, some remote, ready))
unfolding made new_runner ◌>>=◌ ◌>>◌ lift pure
ubuntu-finds_remotes_example =
    ubuntu-finds_remotes accepting (λ name. pos 1) 9 nodes 5 login true made.0 0 made.1 ubuntu "n2"
      refl (inr (inl refl))
