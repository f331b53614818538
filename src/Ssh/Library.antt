-- ===== src/Ssh/Library.antt =====
-- What src/jepsen/control asks of libssh2 and of the sockets, `waitsocket` of SSHConfig.h, and the
-- fields of SSHClient.h.
use jepsen_in_cpp.Prelude.{
  ℕ, zero, suc, ◌/◌, ◌%◌, ◌==◌, String, Bool, if◌then◌else◌, Option, List, [], ◌∷◌, ◌++◌, M,
  out_of_fuel, fault, ◌>>=◌, ◌>>◌, pure, lift,
}
use jepsen_in_cpp.Prelude.Int.{ℤ, pos, negsuc, eqb_ℤ, ltb_ℤ}

-- The functions of libssh2 and of the system that are called, with the outside world. Return codes
-- are integers, and a pointer that may be null is an option.
pub record Libssh2 : Type 1 where
  pub World : Type 0
  pub Session : Type 0
  pub Channel : Type 0
  pub KnownHosts : Type 0
  pub socket : World → ℤ × World
  pub connect : (sock host_addr port : ℤ) → World → ℤ × World
  pub close_socket : ℤ → World → World
  pub select : (sock : ℤ) (reads writes : Bool) → World → World
  pub session_init : World → Option Session × World
  pub set_blocking : Session → World → World
  pub handshake : Session → ℤ → World → ℤ × World
  pub block_directions : Option Session → World → ℕ × World
  pub last_error : Option Session → World → ℤ × World
  pub session_disconnect : Session → World → World
  pub session_free : Session → World → World
  pub knownhost_init : Session → World → Option KnownHosts × World
  pub readfile : KnownHosts → World → World
  pub writefile : KnownHosts → World → World
  pub hostkey : Session → World → Option String × World
  pub check : KnownHosts → (host : String) (port : ℤ) (fingerprint : String) → World → ℤ × World
  pub knownhost_free : KnownHosts → World → World
  pub userauth_password : Session → (username password : String) → World → ℤ × World
  pub userauth_publickey : Session → (username password : String) → World → ℤ × World
  pub open_session : Option Session → World → Option Channel × World
  pub channel_exec : Channel → String → World → ℤ × World
  -- The return code, and the bytes of the buffer up to it where it is positive.
  pub channel_read : Channel → World → (ℤ × String) × World
  pub channel_read_stderr : Channel → World → (ℤ × String) × World
  pub channel_close : Channel → World → ℤ × World
  pub exit_status : Channel → World → ℤ × World
  -- The signal that the variable holds after the call, from the one before it.
  pub exit_signal : Channel → Option String → World → Option String × World
  pub channel_free : Channel → World → World

-- `LIBSSH2_ERROR_EAGAIN`.
abbrev pub eagain : ℤ
eagain = negsuc 36

-- `kSocketInit`.
abbrev pub socket_init : ℤ
socket_init = negsuc 0

-- The calls that make, use and give back what must be given back.
pub data SshCall (L : Libssh2) : Type 0 where
  socket_made : ℤ → SshCall L
  socket_closed : ℤ → SshCall L
  session_made : L.Session → SshCall L
  session_freed : L.Session → SshCall L
  shook_hands : L.Session → ℤ → SshCall L
  authenticated : L.Session → ℤ → SshCall L
  channel_made : Option L.Session → L.Channel → SshCall L
  channel_freed : L.Channel → SshCall L
  output_read : String → SshCall L
  error_read : String → SshCall L

-- `SSHClient`.
pub record SshClient (L : Libssh2) : Type 0 where
  pub ip_addr : String
  pub host_addr : ℤ
  pub port : ℤ
  pub username : String
  pub password : String
  pub sock : ℤ
  pub session : Option L.Session

-- The client, the outside world, and the calls that were made.
pub record Shell (L : Libssh2) : Type 0 where
  pub client : SshClient L
  pub world : L.World
  pub calls : List (SshCall L)

module _ (L : Libssh2) where
  open L use {World, Session, block_directions, select}

  abbrev pub Ssh : Type 0 → Type 0
  Ssh A = M (Shell L) A

  -- A call of the outside world.
  abbrev pub outside : {A : Type 0} → (World → A × World) → Ssh A
  outside f = lift (λ s. let (a, world) = f s.world in (a, record s { world = world }))

  abbrev pub does : (World → World) → Ssh (Unit {0})
  does f = lift (λ s. (tt, record s { world = f s.world }))

  abbrev pub note : SshCall L → Ssh (Unit {0})
  note c = lift (λ s. (tt, record s { calls = s.calls ++ c ∷ [] }))

  abbrev pub this : Ssh (SshClient L)
  this = lift (λ s. (s.client, s))

  abbrev pub set_sock : ℤ → Ssh (Unit {0})
  set_sock sock = lift (λ s. (tt, record s { client = record (s.client) { sock = sock } }))

  abbrev pub set_session : Option Session → Ssh (Unit {0})
  set_session session =
      lift (λ s. (tt, record s { client = record (s.client) { session = session } }))

  -- `waitsocket`. The directions are bits, 1 for inbound and 2 for outbound. To put a socket below 0
  -- into an `fd_set` is undefined.
  unfoldable pub wait_socket : ℤ → Option Session → Ssh (Unit {0})
  wait_socket sock session = do
    dir ← outside (block_directions session)
    if ltb_ℤ sock (pos 0)
        then (λ s. fault)
        else does (select sock (dir % 2 == 1) (dir / 2 % 2 == 1))

  -- `while ((rc = m) == LIBSSH2_ERROR_EAGAIN) wait`.
  unfoldable pub retry : ℕ → Ssh ℤ → Ssh (Unit {0}) → Ssh ℤ
  retry zero m wait = λ s. out_of_fuel
  retry (suc fuel) m wait = do
    rc ← m
    if eqb_ℤ rc eagain then (do wait; retry fuel m wait) else pure rc
