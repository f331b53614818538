-- ===== src/Ssh/Construction.antt =====
-- src/jepsen/control/RemoteSpec.h, and the constructor and destructor of SSHRemote.h, each with the
-- client that the remote owns.
use jepsen_in_cpp.Prelude.{
  ℕ, String, Bool, false, List, [], M, ◌>>=◌, ◌>>◌, if◌then◌else◌, pure, done, fault, exits,
  out_of_fuel, Outcome, ◌≡◌, refl, subst,
}
use jepsen_in_cpp.Prelude.Ensures.{Ensures}
use jepsen_in_cpp.Prelude.Int.{ℤ}
use jepsen_in_cpp.Ssh.Library.{Libssh2, SshClient, SshCall, Shell, Ssh}
use jepsen_in_cpp.Ssh.Client.{new_client, get_connection, destroy}

-- `ConnSpec`.
pub record ConnSpec : Type 0 where
  pub host : String
  pub port : ℤ
  pub username : String
  pub password : String
  pub private_key_path : String
  pub strict_host_key_checking : Bool

-- `SSHRemote`, with the calls that its client has made.
pub record SshRemote (L : Libssh2) : Type 0 where
  pub concurrency_limit : ℕ
  pub conn_spec : ConnSpec
  pub ssh_client : SshClient L
  pub calls : List (SshCall L)

module _ (L : Libssh2) (inet_addr : String → ℤ) where
  -- The constructor `SSHClient(conn)`. The key and the checking of hosts are not passed on.
  unfoldable pub client_of : ConnSpec → SshClient L
  unfolding new_client
  client_of conn = new_client conn.host (inet_addr conn.host) conn.username conn.password conn.port

  abbrev pub shell_of : SshRemote L → L.World → Shell L
  shell_of remote world = record { client = remote.ssh_client; world = world; calls = remote.calls }

  -- A method of the client, called by the remote that owns it.
  unfoldable pub on_client : {A : Type 0} → Ssh L A → SshRemote L → M L.World (A × SshRemote L)
  on_client m remote world = elim (m (shell_of remote world)) [
    | done (a, s) ↦ done ((a, record remote { ssh_client = s.client; calls = s.calls }), s.world)
    | fault ↦ fault
    | exits n ↦ exits n
    | out_of_fuel ↦ out_of_fuel
  ]

  -- The constructor `SSHRemote`, which connects at once, and does not ask whether that succeeded.
  unfoldable pub new_ssh_remote : (fuel concurrency_limit : ℕ) → ConnSpec → M L.World (SshRemote L)
  unfolding client_of on_client get_connection
  new_ssh_remote fuel concurrency_limit conn_spec = do
    (connected, remote) ← on_client (get_connection L fuel) (record {
      concurrency_limit = concurrency_limit;
      conn_spec = conn_spec;
      ssh_client = client_of conn_spec;
      calls = [];
    })
    pure remote

  -- The destructor `~SSHRemote`, which destroys the client.
  unfoldable pub delete_ssh_remote : SshRemote L → M L.World (Unit {0})
  unfolding on_client destroy
  delete_ssh_remote remote = do (destroyed, left) ← on_client (destroy L) remote; pure tt

  -- A client that is made like another one, and dropped at once.
  unfoldable pub make_and_drop : SshClient L → M L.World (Unit {0})
  unfolding new_client destroy
  make_and_drop rhs world =
      let temporary : SshClient L =
        new_client rhs.ip_addr (inet_addr rhs.ip_addr) rhs.username rhs.password rhs.port in
      elim (destroy L (record { client = temporary; world = world; calls = [] })) [
        | done (a, s) ↦ done (tt, s.world)
        | fault ↦ fault
        | exits n ↦ exits n
        | out_of_fuel ↦ out_of_fuel
      ]

  -- The copy constructor of `SSHClient`. It sets none of the fields: the texts are empty, and all else
  -- is as `unset` says.
  unfoldable pub copy_client : (unset rhs : SshClient L) → M L.World (SshClient L)
  unfolding make_and_drop
  copy_client unset rhs = do
    make_and_drop rhs
    pure (record unset { ip_addr = ""; username = ""; password = "" })

  -- `SSHClient::operator=`. `same` tells whether a client is assigned to itself.
  unfoldable pub assign_client : (same : Bool) (lhs rhs : SshClient L) → M L.World (SshClient L)
  unfolding make_and_drop
  assign_client same lhs rhs = if same then pure lhs else (do make_and_drop rhs; pure lhs)

  -- `SSHRemote::operator=`.
  unfoldable pub assign_remote : (same : Bool) (lhs rhs : SshRemote L) → M L.World (SshRemote L)
  unfolding assign_client
  assign_remote same lhs rhs = if same then pure lhs else (do
    client ← assign_client false lhs.ssh_client rhs.ssh_client
    pure (record lhs {
      concurrency_limit = rhs.concurrency_limit;
      conn_spec = rhs.conn_spec;
      ssh_client = client;
    }))

  -- A method of the client leaves the remote with the client as the method leaves it.
  abbrev pub Ran : {A : Type 0} → Ssh L A → SshRemote L → A × SshRemote L → Type 0
  Ran m remote (a, left) =
      (left.conn_spec ≡ remote.conn_spec)
      × ((before after : L.World) × (m (shell_of remote before) ≡ done (a, shell_of left after)))

  pub on_client-Ran :
      {A : Type 0} (m : Ssh L A) (remote : SshRemote L)
      → Ensures (Ran m remote) (on_client m remote)
  unfolding on_client
  on_client-Ran {A} m remote = record {
    apply = λ s r s' e. ran s r s' (m (shell_of remote s)) refl e;
  }
    where
      first :
          {s s' : L.World} {r q : A × SshRemote L}
          → ◌≡◌ {A = Outcome ((A × SshRemote L) × L.World)} (done (r, s)) (done (q, s'))
          → r ≡ q
      first e = cc

      ran :
          (s : L.World) (r : A × SshRemote L) (s' : L.World) (o : Outcome (A × Shell L))
          → m (shell_of remote s) ≡ o
          → ◌≡◌ {A = Outcome ((A × SshRemote L) × L.World)}
              (elim o [
                | done (a, sh) ↦
                    done ((a, record remote { ssh_client = sh.client; calls = sh.calls }), sh.world)
                | fault ↦ fault
                | exits n ↦ exits n
                | out_of_fuel ↦ out_of_fuel
              ])
              (done (r, s'))
          → Ran m remote r
      ran s r s' (done (a, sh)) e k = subst (Ran m remote) (first k) (refl, (s, sh.world, e))
      ran s r s' fault e k = cc
      ran s r s' (exits n) e k = cc
      ran s r s' out_of_fuel e k = cc
