-- ===== src/Ssh/Remote.antt =====
-- src/jepsen/control/SSHRemote.h and SSHRemote.cpp, and the interface that Control.cpp uses.
use jepsen_in_cpp.Prelude.{ℕ, String, Bool, List, [], ◌∷◌, M, ◌>>=◌, pure}
use jepsen_in_cpp.Ssh.Library.{Libssh2, Shell}
use jepsen_in_cpp.Ssh.Client.{execute}

-- A remote host that runs commands: `execute` with what the command wrote to its outputs. `format` is
-- `boost::format`, with the arguments for each `%s`.
pub record Remote (S : Type 0) : Type 0 where
  pub run : String → M S (Bool × String × String)
  pub password : String
  pub format : String → List String → String

module _ {S : Type 0} (remote : Remote S) where
  open remote use {run, password, format}

  -- `SSHRemote::execute(cmd)`.
  unfoldable pub execute_quietly : String → M S Bool
  execute_quietly cmd = do (succeeded, out, err) ← run cmd; pure succeeded

  -- The text that `SSHRemote::sudoExecute` sends.
  abbrev pub sudo : String → String
  sudo cmd = format "echo %s | sudo bash -c \"%s\"" (password ∷ cmd ∷ [])

  -- `SSHRemote::sudoExecute(cmd)`.
  unfoldable pub sudo_execute : String → M S Bool
  unfolding execute_quietly
  sudo_execute cmd = execute_quietly (sudo cmd)

-- The `SSHRemote` over a client: each `execute` is that of the client, with empty outputs before it.
abbrev pub ssh_remote :
    (L : Libssh2) → ℕ → String → (String → List String → String) → Remote (Shell L)
ssh_remote L fuel password format = record {
  run = λ cmd. execute L fuel cmd "" "";
  password = password;
  format = format;
}
