-- ===== src/Ssh/Loops.antt =====
-- The loops of SSHChannel.cpp come to an end where libssh2 does not put them off for ever.
use jepsen_in_cpp.Prelude.{
  ℕ, zero, suc, ◌≤◌, ◌<◌, String, ◌<>◌, Bool, true, false, Option, ◌≡◌, ◌⊎◌, inl, inr, arith, ◌>>◌,
}
use jepsen_in_cpp.Prelude.Int.{ℤ, pos, eqb_ℤ, ltb_ℤ}
use jepsen_in_cpp.Prelude.Ends.{Ends, Ends-pure, Ends-lift, Ends-if, Ends-option, Ends-bind}
use jepsen_in_cpp.Ssh.Library.{Libssh2, Shell, SshCall, Ssh, outside, wait_socket, retry, eagain}
use jepsen_in_cpp.Ssh.Channel.{create_channel, read_chunks, read_all}

-- libssh2 has only so much left to say: each call that puts the client off with `EAGAIN`, and each that
-- hands out some bytes, leaves less, and the others do not leave more.
pub record MakesProgress (L : Libssh2) (left : L.World → ℕ) : Type 0 where
  pub directions :
      (session : Option L.Session) (w : L.World) → left (L.block_directions session w).1 ≤ left w
  pub selects :
      (sock : ℤ) (reads writes : Bool) (w : L.World) → left (L.select sock reads writes w) ≤ left w
  pub opens :
      (session : Option L.Session) (w : L.World) → left (L.open_session session w).1 ≤ left w
  -- A session without a channel is told why by `libssh2_session_last_error`.
  pub explains :
      (session : Option L.Session) (w : L.World) → left (L.last_error session w).1 ≤ left w
  pub puts_off :
      (session : Option L.Session) (w : L.World)
      → eqb_ℤ (L.last_error session w).0 eagain ≡ true
      → left (L.last_error session w).1 < left w
  pub executes :
      (c : L.Channel) (command : String) (w : L.World)
      → left (L.channel_exec c command w).1 ≤ left w
  pub execution_puts_off :
      (c : L.Channel) (command : String) (w : L.World)
      → eqb_ℤ (L.channel_exec c command w).0 eagain ≡ true
      → left (L.channel_exec c command w).1 < left w
  pub reads : (c : L.Channel) (w : L.World) → left (L.channel_read c w).1 ≤ left w
  pub read_advances :
      (c : L.Channel) (w : L.World)
      → (ltb_ℤ (pos 0) (L.channel_read c w).0.0 ≡ true)
        ⊎ (eqb_ℤ (L.channel_read c w).0.0 eagain ≡ true)
      → left (L.channel_read c w).1 < left w
  pub reads_stderr : (c : L.Channel) (w : L.World) → left (L.channel_read_stderr c w).1 ≤ left w
  pub stderr_advances :
      (c : L.Channel) (w : L.World)
      → (ltb_ℤ (pos 0) (L.channel_read_stderr c w).0.0 ≡ true)
        ⊎ (eqb_ℤ (L.channel_read_stderr c w).0.0 eagain ≡ true)
      → left (L.channel_read_stderr c w).1 < left w
  pub closes : (c : L.Channel) (w : L.World) → left (L.channel_close c w).1 ≤ left w
  pub closing_puts_off :
      (c : L.Channel) (w : L.World)
      → eqb_ℤ (L.channel_close c w).0 eagain ≡ true
      → left (L.channel_close c w).1 < left w

module _ (L : Libssh2) (left : L.World → ℕ) (progress : MakesProgress L left) where
  open L use {World, Session, Channel}

  -- The computation ends with no more left than `k`.
  abbrev pub EndsWithin : {A : Type 0} → ℕ → Ssh L A → Shell L → Type 0
  EndsWithin k m s = Ends (λ a s'. left s'.world ≤ k) (m s)

  module _ (sock : ℤ) (session : Option Session) (made : ltb_ℤ sock (pos 0) ≡ false) where
    waits : (k : ℕ) (s : Shell L) → left s.world ≤ k → EndsWithin k (wait_socket L sock session) s
    unfolding wait_socket
    waits k s le =
        Ends-bind {P = λ dir s'. left s'.world ≤ k} _ _ s
          (Ends-lift _ s (omega (arith, progress.directions session s.world, le)))
          λ dir s' le'.
            rw made (Ends-lift _ s' (omega (arith, progress.selects sock _ _ s'.world, le')))

    -- A call that is repeated while it puts the client off.
    pub retries :
        (fuel k : ℕ) (f : World → ℤ × World)
        → ((w : World) → left (f w).1 ≤ left w)
        → ((w : World) → eqb_ℤ (f w).0 eagain ≡ true → left (f w).1 < left w)
        → (s : Shell L) → left s.world < fuel
        → left s.world ≤ k
        → EndsWithin k (retry L fuel (outside L f) (wait_socket L sock session)) s
    unfolding retry ◌>>◌
    retries zero k f le lt s bound within = absurd (omega arith)
    retries (suc fuel) k f le lt s bound within =
        Ends-bind
          {P = λ rc s'.
            (left s'.world ≤ left s.world)
            × (eqb_ℤ rc eagain ≡ true → left s'.world < left s.world)}
          _ _ s (Ends-lift _ s (le s.world, lt s.world))
          λ rc s' h.
            Ends-if (eqb_ℤ rc eagain) _ _ s'
              (λ e.
                Ends-bind _ _ s' (waits (left s'.world) s' (omega arith)) λ _ s'' le'.
                  retries fuel k f le lt s'' (omega (arith, h.1 e)) (omega (arith, h.0)))
              (λ _. Ends-pure _ s' (omega (arith, h.0)))

    pub creates :
        (fuel rounds k : ℕ) (s : Shell L)
        → left s.world < rounds
        → left s.world ≤ k
        → EndsWithin k (create_channel L fuel rounds sock session) s
    unfolding create_channel ◌>>◌
    creates fuel zero k s bound within = absurd (omega arith)
    creates fuel (suc rounds) k s bound within =
        Ends-bind {P = λ c s'. left s'.world ≤ left s.world} _ _ s
          (Ends-lift _ s (progress.opens session s.world))
          λ temp s' le.
            Ends-option temp _ _ s'
              (λ _.
                Ends-bind
                  {P = λ rc s''.
                    (left s''.world ≤ left s'.world)
                    × (eqb_ℤ rc eagain ≡ true → left s''.world < left s'.world)}
                  _ _ s'
                  (Ends-lift _ s'
                    (progress.explains session s'.world, progress.puts_off session s'.world))
                  λ rc s'' h.
                    Ends-if (eqb_ℤ rc eagain) _ _ s''
                      (λ e. Ends-bind _ _ s'' (waits (left s''.world) s'' (omega arith)) λ _ s₃ le'.
                        creates fuel rounds k s₃ (omega (arith, h.1 e)) (omega (arith, h.0)))
                      (λ _. Ends-pure _ s'' (omega (arith, h.0))))
              (λ c _.
                Ends-bind {P = λ _ s''. left s''.world ≤ k} _ _ s' (Ends-lift _ s' (omega arith))
                  λ _ s'' le'. Ends-pure _ s'' le')

    module _ (read : World → (ℤ × String) × World) (noted : String → SshCall L)
        (goes : (w : World) → left (read w).1 ≤ left w)
        (advances : (w : World)
          → (ltb_ℤ (pos 0) (read w).0.0 ≡ true) ⊎ (eqb_ℤ (read w).0.0 eagain ≡ true)
          → left (read w).1 < left w) where
      -- The inner loop ends, with less left than before where the client is put off.
      reads_chunks :
          (fuel rounds k : ℕ) (text : String) (s : Shell L)
          → left s.world < rounds
          → left s.world ≤ k
          → Ends
              (λ r s'. (left s'.world ≤ k) × (eqb_ℤ r.0 eagain ≡ true → left s'.world < k))
              (read_chunks L fuel read noted rounds text s)
      unfolding read_chunks ◌>>◌
      reads_chunks fuel zero k text s bound within = absurd (omega arith)
      reads_chunks fuel (suc rounds) k text s bound within =
          Ends-bind
            {P = λ r s'.
              (left s'.world ≤ left s.world)
              × ((ltb_ℤ (pos 0) r.0 ≡ true) ⊎ (eqb_ℤ r.0 eagain ≡ true)
                  → left s'.world < left s.world)}
            _ _ s (Ends-lift _ s (goes s.world, advances s.world))
            λ r s' h.
              Ends-if (ltb_ℤ (pos 0) r.0) _ _ s'
                (λ e.
                  Ends-bind {P = λ _ s''. left s''.world ≤ left s'.world} _ _ s'
                    (Ends-lift _ s' (omega arith))
                    λ _ s'' le.
                      reads_chunks fuel rounds k (text <> r.1) s'' (omega (arith, h.1 (inl e)))
                        (omega (arith, h.0)))
                (λ _. Ends-pure _ s' (omega (arith, h.0), λ e. omega (arith, h.1 (inr e))))

      pub reads_all :
          (fuel rounds k : ℕ) (text : String) (s : Shell L)
          → left s.world < fuel
          → left s.world < rounds
          → left s.world ≤ k
          → EndsWithin k (read_all L fuel read noted rounds sock session text) s
      unfolding read_all ◌>>◌
      reads_all fuel zero k text s enough bound within = absurd (omega arith)
      reads_all fuel (suc rounds) k text s enough bound within =
          Ends-bind _ _ s (reads_chunks fuel fuel (left s.world) text s enough (omega arith))
            λ r s' h.
              Ends-if (eqb_ℤ r.0 eagain) _ _ s'
                (λ e. Ends-bind _ _ s' (waits (left s'.world) s' (omega arith)) λ _ s'' le.
                  reads_all fuel rounds k r.1 s'' (omega (arith, h.0)) (omega (arith, h.1 e))
                    (omega (arith, h.0)))
                (λ _. Ends-pure _ s' (omega (arith, h.0)))
