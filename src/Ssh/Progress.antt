-- ===== src/Ssh/Progress.antt =====
-- A command over an `SSHClient` comes to an end where libssh2 does not put it off for ever.
use jepsen_in_cpp.Prelude.{
  ℕ, ◌≤◌, ◌<◌, String, Bool, false, Option, ◌≡◌, refl, ap, ◌⊎◌, inl, inr, done, exits, arith, ◌>>◌,
}
use jepsen_in_cpp.Prelude.Int.{ℤ, pos, eqb_ℤ, ltb_ℤ}
use jepsen_in_cpp.Prelude.Ends.{
  Ends, Ends-pure, Ends-lift, Ends-exits, Ends-if, Ends-option, Ends-bind, Ends-cases,
}
use jepsen_in_cpp.Ssh.Library.{Libssh2, SshClient, Shell, Ssh, output_read, error_read}
use jepsen_in_cpp.Ssh.Channel.{new_channel, close, exec}
use jepsen_in_cpp.Ssh.Client.{execute, is_unconnected}
use jepsen_in_cpp.Ssh.Loops.{MakesProgress, EndsWithin, creates, retries, reads_all}

module _ (L : Libssh2) (left : L.World → ℕ) (progress : MakesProgress L left) where
  open L use {World, Session, Channel}

  module _ (sock : ℤ) (session : Option Session) (made : ltb_ℤ sock (pos 0) ≡ false) where
    abbrev EndsAnyhow : {A : Type 0} → Ssh L A → Shell L → Type 0
    EndsAnyhow m s = Ends (λ a s'. Unit {0}) (m s)

    module _ (fuel : ℕ) where
      makes :
          (k : ℕ) (s : Shell L)
          → left s.world < fuel
          → left s.world ≤ k
          → EndsWithin L left progress k (new_channel L fuel sock session) s
      unfolding new_channel
      makes k s bound within =
          Ends-bind _ _ s (creates L left progress sock session made fuel fuel k s bound within)
            λ created s' le.
              Ends-option created _ _ s' (λ _. Ends-exits _) (λ c _. Ends-pure _ s' le)

      runs :
          (k : ℕ) (c : Channel) (command out err : String) (s : Shell L)
          → k < fuel
          → left s.world ≤ k
          → EndsWithin L left progress k (exec L fuel c sock session command out err) s
      unfolding exec
      runs k c command out err s bound within =
          Ends-bind _ _ s
            (retries L left progress sock session made fuel k _ (progress.executes c command)
              (progress.execution_puts_off c command) s (omega arith) within)
            λ rc s' le.
              Ends-if (eqb_ℤ rc (pos 0)) _ _ s'
                (λ _.
                  Ends-bind _ _ s'
                    (reads_all L left progress sock session made _ output_read (progress.reads c)
                      (progress.read_advances c) fuel fuel k out s' (omega arith) (omega arith) le)
                    λ out' s'' le'.
                      Ends-bind _ _ s''
                        (reads_all L left progress sock session made _ error_read
                          (progress.reads_stderr c) (progress.stderr_advances c) fuel fuel k err s''
                          (omega arith) (omega arith) le')
                        λ err' s₃ le''. Ends-pure _ s₃ le'')
                (λ _. Ends-exits _)

      closes_channel :
          (k : ℕ) (c : Channel) (s : Shell L)
          → k < fuel
          → left s.world ≤ k
          → EndsAnyhow (close L fuel c sock session) s
      unfolding close ◌>>◌
      closes_channel k c s bound within =
          Ends-bind _ _ s
            (retries L left progress sock session made fuel k _ (progress.closes c)
              (progress.closing_puts_off c) s (omega arith) within)
            λ rc s₁ _.
              Ends-bind {P = λ _ _. Unit {0}} _ _ s₁
                (Ends-if (eqb_ℤ rc (pos 0)) _ _ s₁ (λ _. Ends-lift _ s₁ tt)
                  (λ _. Ends-pure _ s₁ tt))
                λ code s₂ _.
                  Ends-bind {P = λ _ _. Unit {0}} _ _ s₂
                    (Ends-if (eqb_ℤ rc (pos 0)) _ _ s₂ (λ _. Ends-lift _ s₂ tt)
                      (λ _. Ends-pure _ s₂ tt))
                    λ signal s₃ _.
                      Ends-bind {P = λ _ _. Unit {0}} _ _ s₃ (Ends-lift _ s₃ tt) λ _ s₄ _.
                        Ends-bind {P = λ _ _. Unit {0}} _ _ s₄ (Ends-lift _ s₄ tt)
                          λ _ s₅ _. Ends-pure _ s₅ tt

  executes :
      (fuel : ℕ) (command out err : String) (s : Shell L)
      → is_unconnected L fuel s.client ≡ false
      → ltb_ℤ s.client.sock (pos 0) ≡ false
      → left s.world < fuel
      → Ends (λ r s'. Unit {0}) (execute L fuel command out err s)
  unfolding execute ◌>>◌
  executes fuel command out err s connected made bound =
      Ends-bind {P = Same} _ _ s (Ends-lift _ s (refl, refl)) λ before s₁ h₁.
        Ends-bind {P = λ _ s'. s' ≡ s} _ _ s₁
          (Ends-if (is_unconnected L fuel before) _ _ s₁
            (λ e. absurd (cc (rw h₁.0 at e, connected))) (λ _. Ends-pure _ s₁ h₁.1))
          λ _ s₂ same.
            Ends-bind {P = Same} _ _ s₂ (Ends-lift _ s₂ (ap (λ (x : Shell L). x.client) same, same))
              λ c s₃ h₃.
                let made' : ltb_ℤ c.sock (pos 0) ≡ false = rw h₃.0 made in
                let bound' : left s₃.world < fuel = rw h₃.1 bound in
                Ends-bind _ _ s₃
                  (makes c.sock c.session made' fuel (left s₃.world) s₃ bound' (omega arith))
                  λ channel s₄ le.
                    Ends-bind _ _ s₄
                      (runs c.sock c.session made' fuel (left s₃.world) channel command out err s₄
                        bound' le)
                      λ outputs s₅ le'.
                        Ends-bind _ _ s₅
                          (closes_channel c.sock c.session made' fuel (left s₃.world) channel s₅
                            bound' le')
                          λ succeeded s₆ _. Ends-pure _ s₆ tt
    where
      Same : SshClient L → Shell L → Type 0
      Same c s' = (c ≡ s.client) × (s' ≡ s)

-- A client that holds a session and a socket, over a libssh2 that does not put it off for ever, comes to
-- the end of a command: `execute` returns, or the process exits, as it does where no channel is made
-- or the command is refused. No loop runs on and no pointer is followed wrongly. Premises: the calls
-- that put the client off and those that hand out bytes leave less and less to do, the others leave no
-- more, and the fuel is above what is left.
pub execute-ends :
    (L : Libssh2) (left : L.World → ℕ) (fuel : ℕ) (command out err : String) (s : Shell L)
    → MakesProgress L left
    → is_unconnected L fuel s.client ≡ false
    → ltb_ℤ s.client.sock (pos 0) ≡ false
    → left s.world < fuel
    → ((r : Bool × String × String) × (s' : Shell L) × (execute L fuel command out err s
          ≡ done (r, s')))
      ⊎ ((n : ℤ) × (execute L fuel command out err s ≡ exits n))
execute-ends L left fuel command out err s progress connected made bound =
    elim (Ends-cases _ (executes L left progress fuel command out err s connected made bound)) [
      | inl (r, s', e, _) ↦ inl (r, s', e)
      | inr (n, e) ↦ inr (n, e)
    ]
