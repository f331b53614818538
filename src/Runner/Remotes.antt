-- ===== src/Runner/Remotes.antt =====
-- src/jepsen/Runner.h and Runner.cpp: the remotes that the constructor of `Runner` makes, one for each
-- node.
use text.Mathlib.Text.{◌==◌}
use text.Mathlib.TextEquality.{eq_iff}
use jepsen_in_cpp.Prelude.{
  ℕ, String, Bool, if◌then◌else◌, Option, none, some, List, [], ◌∷◌, ◌++◌, In, All, ◌⊎◌, subst, ◌≡◌,
  sym, inl, inr, M, ◌>>=◌, ◌>>◌, pure, arith, done, Option-cases, All-append,
}
use jepsen_in_cpp.Prelude.Int.{ℤ}
use jepsen_in_cpp.Prelude.Ensures.{Ensures, Ensures-pure, Ensures-bind, Ensures-anything}
use jepsen_in_cpp.Ssh.Library.{Libssh2}
use jepsen_in_cpp.Ssh.Client.{get_connection}
use jepsen_in_cpp.Ssh.Construction.{
  ConnSpec, SshRemote, client_of, shell_of, on_client-Ran, new_ssh_remote, delete_ssh_remote,
}

-- `SSHInfo`.
pub record SshInfo : Type 0 where
  pub username : String
  pub password : String
  pub sudo_password : String
  pub port : ℤ
  pub private_key_path : String
  pub strict_host_key_checking : Bool

abbrev pub conn_spec_of : SshInfo → String → ConnSpec
conn_spec_of ssh ip_addr = record {
  host = ip_addr;
  port = ssh.port;
  username = ssh.username;
  password = ssh.password;
  private_key_path = ssh.private_key_path;
  strict_host_key_checking = ssh.strict_host_key_checking;
}

-- `std::unordered_map<string, A>`.
abbrev pub ByNode : Type 0 → Type 0
ByNode A = List (String × A)

unfoldable pub find : {A : Type 0} → String → ByNode A → Option A
find node [] = none
find node ((n, a) ∷ rest) = if n == node then some a else find node rest

module _ (L : Libssh2) (inet_addr : String → ℤ) (fuel : ℕ) where
  -- `remotes.emplace(ip_addr, remote)`: where the node has a remote the new one is destroyed.
  unfoldable pub emplace :
      String → SshRemote L → ByNode (SshRemote L) → M L.World (ByNode (SshRemote L))
  unfolding find delete_ssh_remote
  emplace node remote remotes = elim (find node remotes) [
    | none ↦ pure (remotes ++ (node, remote) ∷ [])
    | some other ↦ (do delete_ssh_remote L inet_addr remote; pure remotes)
  ]

  -- `Runner::initRemotes`, from the nodes that are left.
  unfoldable pub init_remotes :
      SshInfo → List String → ByNode (SshRemote L) → M L.World (ByNode (SshRemote L))
  unfolding emplace new_ssh_remote
  init_remotes ssh [] remotes = pure remotes
  init_remotes ssh (ip_addr ∷ nodes) remotes = do
    remote ← new_ssh_remote L inet_addr fuel 10 (conn_spec_of ssh ip_addr)
    remotes' ← emplace ip_addr remote remotes
    init_remotes ssh nodes remotes'

  -- The remote is the one that was made and connected for the node, with the login of the runner.
  abbrev pub IsRemoteOf : SshInfo → String × SshRemote L → Type 0
  IsRemoteOf ssh (node, remote) =
      (remote.conn_spec ≡ conn_spec_of ssh node)
      × ((before after : L.World) × (get_connection L fuel (record {
        client = client_of L inet_addr (conn_spec_of ssh node);
        world = before;
        calls = [];
      })
            ≡ done (tt, shell_of L inet_addr remote after)))

  new_ssh_remote-IsRemoteOf :
      (ssh : SshInfo) (node : String)
      → Ensures
          (λ remote. IsRemoteOf ssh (node, remote))
          (new_ssh_remote L inet_addr fuel 10 (conn_spec_of ssh node))
  unfolding new_ssh_remote
  new_ssh_remote-IsRemoteOf ssh node =
      Ensures-bind _ _ (on_client-Ran L inet_addr (get_connection L fuel) _) λ r h. Ensures-pure _ h

  -- Each of the remotes is that of its node.
  abbrev AreRemotes : SshInfo → ByNode (SshRemote L) → Type 0
  AreRemotes ssh remotes = All (IsRemoteOf ssh) remotes

  abbrev pub IsFound : String → ByNode (SshRemote L) → Type 0
  IsFound node remotes = (remote : SshRemote L) × (find node remotes ≡ some remote)

  find-append :
      (node : String) (remote : SshRemote L) (rs qs : ByNode (SshRemote L))
      → find node rs ≡ some remote
      → find node (rs ++ qs) ≡ some remote
  unfolding find
  find-append node remote [] qs e = cc
  find-append node remote ((n, a) ∷ rs) qs e = ground (arith, find-append node remote rs qs)

  find-last :
      (node : String) (remote : SshRemote L) (rs : ByNode (SshRemote L))
      → find node rs ≡ none
      → find node (rs ++ (node, remote) ∷ []) ≡ some remote
  unfolding find
  find-last node remote [] e = ground (arith, eq_iff node node)
  find-last node remote ((n, a) ∷ rs) e = ground (arith, eq_iff n node, find-last node remote rs)

  abbrev Grows : SshInfo → String → ByNode (SshRemote L) → ByNode (SshRemote L) → Type 0
  Grows ssh node rs rs' =
      AreRemotes ssh rs' × (IsFound node rs' × ((m : String) → IsFound m rs → IsFound m rs'))

  emplace-Grows :
      (ssh : SshInfo) (node : String) (remote : SshRemote L) (rs : ByNode (SshRemote L))
      → IsRemoteOf ssh (node, remote)
      → AreRemotes ssh rs
      → Ensures (Grows ssh node rs) (emplace node remote rs)
  unfolding emplace ◌>>◌
  emplace-Grows ssh node remote rs h all = elim (Option-cases (find node rs)) [
    | inl e ↦
        rw (emplace, e)
          (Ensures-pure _ (
            All-append (IsRemoteOf ssh) rs ((node, remote) ∷ []) all (h, tt),
            ((remote, find-last node remote rs e), λ m k. (k.0, find-append m k.0 rs _ k.1)),
          ))
    | inr (other, e) ↦
        rw (emplace, e)
          (Ensures-bind _ _ (Ensures-anything _)
            λ _ _. Ensures-pure _ (all, ((other, e), λ m k. k)))
  ]

  pub init_remotes-finds :
      (ssh : SshInfo) (nodes : List String) (rs : ByNode (SshRemote L))
      → AreRemotes ssh rs
      → Ensures
          (λ rs'. AreRemotes ssh rs' × ((m : String) → (In m nodes) ⊎ IsFound m rs → IsFound m rs'))
          (init_remotes ssh nodes rs)
  unfolding init_remotes
  init_remotes-finds ssh [] rs all =
      Ensures-pure _ (all, λ m k. elim k [ inl i ↦ elim i [ ] | inr f ↦ f ])
  init_remotes-finds ssh (node ∷ nodes) rs all =
      Ensures-bind _ _ (new_ssh_remote-IsRemoteOf ssh node) λ remote h.
        Ensures-bind _ _ (emplace-Grows ssh node remote rs h all) λ rs' grown. record {
          apply = λ s a s' e.
              let later = (init_remotes-finds ssh nodes rs' grown.0).apply s a s' e in
              (later.0, λ m k. later.1 m (carried m rs rs' grown.1.0 (grown.1.1 m) k));
        }
    where
      carried :
          (m : String) (rs rs' : ByNode (SshRemote L))
          → IsFound node rs'
          → (IsFound m rs → IsFound m rs')
          → (In m (node ∷ nodes)) ⊎ IsFound m rs
          → (In m nodes) ⊎ IsFound m rs'
      carried m rs rs' new old (inl (inl e)) = inr (subst (λ n. IsFound n rs') (sym e) new)
      carried m rs rs' new old (inl (inr i)) = inl i
      carried m rs rs' new old (inr f) = inr (old f)
