-- ===== src/Ssh/Lifetime.antt =====
-- The life of an `SSHClient`: its construction by `SSHRemote`, the commands, and the destructor.
use jepsen_in_cpp.Prelude.{ℕ, String, Bool, none, [], ◌≡◌, refl, done, ◌>>◌}
use jepsen_in_cpp.Prelude.Int.{ℤ, eqb_ℤ}
use jepsen_in_cpp.Prelude.Hoare.{Triple, Triple-bind, Triple-pure}
use jepsen_in_cpp.Prelude.Total.{Total, Total-pure, Total-lift, Total-if, Total-bind, Total-option}
use jepsen_in_cpp.Ssh.Library.{Libssh2, Shell, socket_init}
use jepsen_in_cpp.Ssh.Client.{
  new_client, get_connection, execute, disconnect, destroy, end_session, end_socket,
}
use jepsen_in_cpp.Ssh.Protocol.{Follows, begins, IsAt}
use jepsen_in_cpp.Ssh.Sessions.{IsSound, RefusesNoSocket, get_connection-IsSound, disconnect-frees}
use jepsen_in_cpp.Ssh.Channels.{execute-IsSound}

module _ (L : Libssh2) (fuel : ℕ) where
  open L use {World}

  -- A client that was made and connected, or that failed to, and then executed commands.
  pub data IsUsed : Shell L → Type 0 where
    constructed :
        {s : Shell L} (ip_addr : String) (host_addr : ℤ) (username password : String) (port : ℤ)
        (world : World)
        → get_connection L fuel (record {
          client = new_client ip_addr host_addr username password port;
          world = world;
          calls = [];
        })
          ≡ done (tt, s)
        → IsUsed s
    executed :
        {s s' : Shell L} (command out err : String) (r : Bool × String × String)
        → IsUsed s
        → execute L fuel command out err s ≡ done (r, s')
        → IsUsed s'

  IsUsed-IsSound : RefusesNoSocket L → (s : Shell L) → IsUsed s → IsSound L s
  unfolding new_client
  IsUsed-IsSound refuses s (constructed ip_addr host_addr username password port world e) =
      (get_connection-IsSound L refuses fuel socket_init).apply _ tt s
        (record { session = refl; sock = refl; follows = begins }) e
  IsUsed-IsSound refuses s (executed {s = before} command out err r used e) =
      (execute-IsSound L fuel refuses command out err).apply before r s
        (IsUsed-IsSound refuses before used) e

  disconnect-Total : Total (λ b. Unit {0}) (disconnect L)
  unfolding disconnect end_session end_socket ◌>>◌
  disconnect-Total =
      Total-bind {P = λ a. Unit {0}} _ _
        (Total-bind {P = λ a. Unit {0}} _ _ (Total-lift _ (λ s. tt)) λ c _.
          Total-option c.session _ _ (λ _. Total-pure _ tt)
            λ x _. Total-bind {P = λ a. Unit {0}} _ _ (Total-lift _ (λ s. tt)) λ _ _.
              Total-bind {P = λ a. Unit {0}} _ _ (Total-lift _ (λ s. tt)) λ _ _.
                Total-bind {P = λ a. Unit {0}} _ _ (Total-lift _ (λ s. tt))
                  λ _ _. Total-lift _ (λ s. tt))
        λ _ _.
          Total-bind {P = λ a. Unit {0}} _ _
            (Total-bind {P = λ a. Unit {0}} _ _ (Total-lift _ (λ s. tt)) λ c _.
              Total-if (eqb_ℤ c.sock socket_init) _ _ (λ _. Total-pure _ tt)
                λ _. Total-bind {P = λ a. Unit {0}} _ _ (Total-lift _ (λ s. tt)) λ _ _.
                  Total-bind {P = λ a. Unit {0}} _ _ (Total-lift _ (λ s. tt))
                    λ _ _. Total-lift _ (λ s. tt))
            λ _ _. Total-pure _ tt

  destroy-Total : Total (λ b. Unit {0}) (destroy L)
  unfolding destroy
  destroy-Total = Total-bind _ _ disconnect-Total λ _ _. Total-pure _ tt

  destroy-IsAt : Triple (IsSound L) (destroy L) (λ a. IsAt L none socket_init none none)
  unfolding destroy
  destroy-IsAt = Triple-bind _ _ (disconnect-frees L) λ ended. Triple-pure _ λ s h. h

-- Whatever commands a client has executed, and whether or not it could connect, its calls keep to the
-- protocol: each session is made while none is held and is used only until it is freed; each channel
-- is made while none is held, in the session that is held then, or in the null pointer where none is,
-- and it is freed; and the session that is held, if any, is the client's.
pub client-Follows :
    (L : Libssh2) (fuel : ℕ) (s : Shell L)
    → RefusesNoSocket L
    → IsUsed L fuel s
    → Follows L s.calls s.client.session none
client-Follows L fuel s refuses used = (IsUsed-IsSound L fuel refuses s used).follows

-- The destructor of such a client returns, and then no session and no channel is held by its calls,
-- and the client holds neither a session nor a socket.
pub destroy-frees :
    (L : Libssh2) (fuel : ℕ) (s : Shell L)
    → RefusesNoSocket L
    → IsUsed L fuel s
    → (s' : Shell L) × (destroy L s ≡ done (tt, s')) × IsAt L none socket_init none none s'
destroy-frees L fuel s refuses used =
    let (_, s', e, _) = (destroy-Total L fuel).run s in
    (s', e, (destroy-IsAt L fuel).apply s tt s' (IsUsed-IsSound L fuel refuses s used) e)
