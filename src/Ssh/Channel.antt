-- ===== src/Ssh/Channel.antt =====
-- src/jepsen/control/SSHChannel.h and SSHChannel.cpp. Each loop has fuel.
use jepsen_in_cpp.Prelude.{
  ℕ, zero, suc, String, ◌<>◌, Bool, false, if◌then◌else◌, Option, none, some, out_of_fuel, exits,
  ◌>>=◌, ◌>>◌, pure,
}
use jepsen_in_cpp.Prelude.Int.{ℤ, pos, negsuc, eqb_ℤ, ltb_ℤ}
use jepsen_in_cpp.Ssh.Library.{
  Libssh2, SshCall, Ssh, outside, does, note, wait_socket, retry, eagain, channel_made,
  channel_freed, output_read, error_read,
}

module _ (L : Libssh2) (fuel : ℕ) where
  open L use {
    Session, Channel, World, last_error, open_session, channel_exec, channel_read,
    channel_read_stderr, channel_close, exit_status, exit_signal, channel_free,
  }

  -- `SSHChannel::createChannel`.
  unfoldable pub create_channel : ℕ → ℤ → Option Session → Ssh L (Option Channel)
  unfolding wait_socket
  create_channel zero sock session = λ s. out_of_fuel
  create_channel (suc rounds) sock session = do
    temp ← outside L (open_session session)
    elim temp [
      | some c ↦ (do note L (channel_made session c); pure (some c))
      | none ↦ (do
        rc ← outside L (last_error session)
        if eqb_ℤ rc eagain
            then (do wait_socket L sock session; create_channel rounds sock session)
            else pure none)
    ]

  -- The constructor `SSHChannel`: without a channel the process exits.
  unfoldable pub new_channel : ℤ → Option Session → Ssh L Channel
  unfolding create_channel
  new_channel sock session = do
    created ← create_channel fuel sock session
    elim created [ some c ↦ pure c | none ↦ λ s. exits (negsuc 0) ]

  -- `SSHChannel::close`: whether the command ended with the status 0 and without a signal.
  unfoldable pub close : Channel → ℤ → Option Session → Ssh L Bool
  unfolding retry wait_socket
  close channel sock session = do
    rc ← retry L fuel (outside L (channel_close channel)) (wait_socket L sock session)
    exitcode ← if eqb_ℤ rc (pos 0) then outside L (exit_status channel) else pure (pos 127)
    exitsignal ←
        if eqb_ℤ rc (pos 0)
        then outside L (exit_signal channel (some "none"))
        else pure (some "none")
    does L (channel_free channel)
    note L (channel_freed channel)
    pure (elim exitsignal [ some signal ↦ false | none ↦ eqb_ℤ exitcode (pos 0) ])

  module _ (read : World → (ℤ × String) × World) (noted : String → SshCall L) where
    -- The inner loop of `exec`: it reads until a return code is not positive.
    unfoldable pub read_chunks : ℕ → String → Ssh L (ℤ × String)
    read_chunks zero text = λ s. out_of_fuel
    read_chunks (suc rounds) text = do
      (rc, buf) ← outside L read
      if ltb_ℤ (pos 0) rc
          then (do note L (noted buf); read_chunks rounds (text <> buf))
          else pure (rc, text)

    -- The outer loop: it waits and reads on where the channel would block.
    unfoldable pub read_all : ℕ → ℤ → Option Session → String → Ssh L String
    unfolding read_chunks wait_socket
    read_all zero sock session text = λ s. out_of_fuel
    read_all (suc rounds) sock session text = do
      (rc, text') ← read_chunks fuel text
      if eqb_ℤ rc eagain
          then (do wait_socket L sock session; read_all rounds sock session text')
          else pure text'

  -- `SSHChannel::exec`, with what it leaves in `channel_stdout` and `channel_stderr`.
  unfoldable pub exec :
      Channel → ℤ → Option Session → String → (out err : String) → Ssh L (String × String)
  unfolding retry read_all wait_socket
  exec channel sock session command out err = do
    rc ← retry L fuel (outside L (channel_exec channel command)) (wait_socket L sock session)
    if eqb_ℤ rc (pos 0)
        then (do
          out' ← read_all (channel_read channel) output_read fuel sock session out
          err' ← read_all (channel_read_stderr channel) error_read fuel sock session err
          pure (out', err'))
        else (λ s. exits (pos 1))
