-- ===== src/Ssh/Client.antt =====
-- src/jepsen/control/SSHClient.h and SSHClient.cpp.
use jepsen_in_cpp.Prelude.{
  ℕ, String, Bool, true, false, if◌then◌else◌, none, some, ◌>>=◌, ◌>>◌, pure,
}
use jepsen_in_cpp.Prelude.Int.{ℤ, pos, eqb_ℤ}
use jepsen_in_cpp.Prelude.Text.{is_empty}
use jepsen_in_cpp.Ssh.Library.{
  Libssh2, SshClient, Ssh, outside, does, note, this, set_sock, set_session, retry, socket_init,
  socket_made, socket_closed, session_made, session_freed, shook_hands, authenticated,
}
use jepsen_in_cpp.Ssh.Channel.{new_channel, exec, close}

module _ (L : Libssh2) where
  open L use {
    Session, KnownHosts, socket, connect, close_socket, session_init, set_blocking, handshake,
    session_disconnect, session_free, knownhost_init, readfile, writefile, hostkey, check,
    knownhost_free, userauth_password, userauth_publickey,
  }

  -- The first part of `SSHClient::disConnect`.
  unfoldable pub end_session : Ssh L (Unit {0})
  end_session = do
    c ← this L
    elim c.session [
      | none ↦ pure tt
      | some session ↦ (do
        does L (session_disconnect session)
        does L (session_free session)
        note L (session_freed session)
        set_session L none)
    ]

  -- The second.
  unfoldable pub end_socket : Ssh L (Unit {0})
  end_socket = do
    c ← this L
    if eqb_ℤ c.sock socket_init then pure tt else (do
      does L (close_socket c.sock)
      note L (socket_closed c.sock)
      set_sock L socket_init)

  -- `SSHClient::disConnect`.
  unfoldable pub disconnect : Ssh L Bool
  unfolding end_session end_socket
  disconnect = do end_session; end_socket; pure true

  module _ (fuel : ℕ) where
    -- The part of `SSHClient::connectTo` that asks for the host's key; the key is not used further.
    unfoldable pub look_up_host : Session → Ssh L Bool
    look_up_host session = do
      c ← this L
      made ← outside L (knownhost_init session)
      elim made [
        | none ↦ pure false
        | some nh ↦ (do
          does L (readfile nh)
          does L (writefile nh)
          fingerprint ← outside L (hostkey session)
          elim fingerprint [
            | none ↦ pure false
            | some key ↦ (do
              checked ← outside L (check nh c.ip_addr c.port key)
              does L (knownhost_free nh)
              pure true)
          ])
      ]

    -- The part that authenticates, by password or, without one, by public key.
    unfoldable pub authenticate : Session → Ssh L Bool
    unfolding disconnect retry
    authenticate session = do
      c ← this L
      rc ←
          retry L fuel
            (if is_empty c.password
              then outside L (userauth_publickey session c.username c.password)
              else outside L (userauth_password session c.username c.password))
            (pure tt)
      note L (authenticated session rc)
      if eqb_ℤ rc (pos 0) then pure true else (do ended ← disconnect; pure false)

    -- The part that shakes hands.
    unfoldable pub begin_session : Session → ℤ → Ssh L Bool
    unfolding retry look_up_host authenticate
    begin_session session sock = do
      does L (set_blocking session)
      rc ← retry L fuel (outside L (handshake session sock)) (pure tt)
      note L (shook_hands session rc)
      if eqb_ℤ rc (pos 0)
          then (do found ← look_up_host session; if found then authenticate session else pure false)
          else pure false

    -- `SSHClient::connectTo`.
    unfoldable pub connect_to : Ssh L Bool
    unfolding begin_session
    connect_to = do
      c ← this L
      sock ← outside L socket
      set_sock L sock
      note L (socket_made sock)
      rc ← outside L (connect sock c.host_addr c.port)
      if eqb_ℤ rc (pos 0)
          then (do
            made ← outside L session_init
            set_session L made
            elim made [
              | none ↦ pure false
              | some session ↦ (do note L (session_made session); begin_session session sock)
            ])
          else pure false

    -- `SSHClient::getConnection`, which only logs what `connectTo` returns.
    unfoldable pub get_connection : Ssh L (Unit {0})
    unfolding connect_to
    get_connection = do connected ← connect_to; pure tt

    abbrev pub is_unconnected : SshClient L → Bool
    is_unconnected c = elim c.session [ none ↦ true | some session ↦ eqb_ℤ c.sock socket_init ]

    -- `SSHClient::execute`: whether the command succeeded, with what it wrote.
    unfoldable pub execute : String → (out err : String) → Ssh L (Bool × String × String)
    unfolding get_connection new_channel exec close
    execute command out err = do
      before ← this L
      if is_unconnected before then get_connection else pure tt
      c ← this L
      channel ← new_channel L fuel c.sock c.session
      (out', err') ← exec L fuel channel c.sock c.session command out err
      succeeded ← close L fuel channel c.sock c.session
      pure (succeeded, out', err')

  -- The destructor `~SSHClient`, but for `libssh2_exit`.
  unfoldable pub destroy : Ssh L (Unit {0})
  unfolding disconnect
  destroy = do ended ← disconnect; pure tt

-- The constructor `SSHClient`, after `libssh2_init`. `host_addr` is what `inet_addr` makes of the
-- address.
unfoldable pub new_client :
    {L : Libssh2}
    → (ip_addr : String) (host_addr : ℤ) (username password : String) (port : ℤ) → SshClient L
new_client ip_addr host_addr username password port = record {
  ip_addr = ip_addr;
  host_addr = host_addr;
  port = port;
  username = username;
  password = password;
  sock = socket_init;
  session = none;
}
