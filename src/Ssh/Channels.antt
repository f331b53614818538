-- ===== src/Ssh/Channels.antt =====
-- The methods of `SSHChannel` keep to the protocol, and what `execute` does as a whole.
use jepsen_in_cpp.Prelude.{
  ℕ, zero, suc, String, ◌<>◌, true, if◌then◌else◌, Option, none, some, List, [], ◌∷◌, ◌++◌, ◌≡◌,
  sym, subst, ◌≢◌, ◌⊎◌, inl, inr, ◌>>◌, pure, ◌∙◌, Option-cases,
}
use jepsen_in_cpp.Prelude.Int.{ℤ, pos, eqb_ℤ, eqb_ℤ_iff, ltb_ℤ}
use jepsen_in_cpp.Prelude.Hoare.{
  Triple, Triple-pure, Triple-exits, Triple-out_of_fuel, Triple-if, Triple-weaken, Triple-bind,
  Triple-option, Triple-then,
}
use jepsen_in_cpp.Ssh.Library.{
  Libssh2, SshCall, SshClient, Ssh, socket_init, eagain, channel_made, channel_freed,
}
use jepsen_in_cpp.Ssh.Channel.{create_channel, new_channel, close, read_chunks, read_all, exec}
use jepsen_in_cpp.Ssh.Client.{get_connection, execute, is_unconnected}
use jepsen_in_cpp.Ssh.Protocol.{
  Follows, makes_channel, frees_channel, reads_output, reads_error, IsAt, outside-IsAt, does-IsAt,
  note-IsAt, this-IsAt, retry-IsAt, wait_socket-IsAt,
}
use jepsen_in_cpp.Ssh.Sessions.{
  IsSound, IsSound-IsAt, IsAt-IsSound, RefusesNoSocket, get_connection-IsSound,
}

module _ (L : Libssh2) (fuel : ℕ) where
  open L use {World, Session, Channel}

  module _ (held : Option Session) (so : ℤ) (se : Option Session) where
    create_channel-IsAt :
        (rounds : ℕ) (n : ℤ)
        → Triple
            (IsAt L held so se none)
            (create_channel L fuel rounds n se)
            (λ o. IsAt L held so se o)
    unfolding create_channel ◌>>◌
    create_channel-IsAt zero n = Triple-out_of_fuel
    create_channel-IsAt (suc rounds) n = Triple-bind _ _ (outside-IsAt L _) λ temp.
        Triple-option temp _ _
          (λ _. Triple-bind _ _ (outside-IsAt L _) λ rc.
            Triple-if (eqb_ℤ rc eagain) _ _
              (λ _. Triple-then _ _ (wait_socket-IsAt L n se) (create_channel-IsAt rounds n))
              (λ _. Triple-pure _ λ s h. h))
          λ c _.
            Triple-then _ _ (note-IsAt L (channel_made se c) (λ cs h. makes_channel c h))
              (Triple-pure _ λ s h. h)

    new_channel-IsAt :
        (n : ℤ)
        → Triple
            (IsAt L held so se none)
            (new_channel L fuel n se)
            (λ c. IsAt L held so se (some c))
    unfolding new_channel
    new_channel-IsAt n = Triple-bind _ _ (create_channel-IsAt fuel n) λ created.
        Triple-option created _ _ (λ _. Triple-exits _)
          λ c e. Triple-pure _ λ s h. subst (λ o. IsAt L held so se o s) e h

    module _ (c : Channel) where
      abbrev Keeps : {A : Type 0} → Ssh L A → Type 0
      Keeps m = Triple (IsAt L held so se (some c)) m (λ a. IsAt L held so se (some c))

      module _ (read : World → (ℤ × String) × World) (noted : String → SshCall L)
          (reads : (text : String) (cs : List (SshCall L))
            → Follows L cs se (some c)
            → Follows L (cs ++ noted text ∷ []) se (some c)) where
        read_chunks-IsAt :
            (rounds : ℕ) (text : String) → Keeps (read_chunks L fuel read noted rounds text)
        unfolding read_chunks ◌>>◌
        read_chunks-IsAt zero text = Triple-out_of_fuel
        read_chunks-IsAt (suc rounds) text = Triple-bind _ _ (outside-IsAt L _) λ (rc, buf).
            Triple-if (ltb_ℤ (pos 0) rc) _ _
              (λ _.
                Triple-then _ _ (note-IsAt L (noted buf) (reads buf))
                  (read_chunks-IsAt rounds (text <> buf)))
              (λ _. Triple-pure _ λ s h. h)

        read_all-IsAt :
            (rounds : ℕ) (n : ℤ) (x : Option Session) (text : String)
            → Keeps (read_all L fuel read noted rounds n x text)
        unfolding read_all ◌>>◌
        read_all-IsAt zero n x text = Triple-out_of_fuel
        read_all-IsAt (suc rounds) n x text =
            Triple-bind _ _ (read_chunks-IsAt fuel text) λ (rc, text').
              Triple-if (eqb_ℤ rc eagain) _ _
                (λ _. Triple-then _ _ (wait_socket-IsAt L n x) (read_all-IsAt rounds n x text'))
                (λ _. Triple-pure _ λ s h. h)

      exec-IsAt :
          (n : ℤ) (x : Option Session) (command out err : String)
          → Keeps (exec L fuel c n x command out err)
      unfolding exec
      exec-IsAt n x command out err =
          Triple-bind _ _ (retry-IsAt L fuel _ _ (outside-IsAt L _) (wait_socket-IsAt L n x)) λ rc.
            Triple-if (eqb_ℤ rc (pos 0)) _ _
              (λ _.
                Triple-bind _ _ (read_all-IsAt _ _ (λ text cs h. reads_output text h) fuel n x out)
                  λ out'.
                    Triple-bind _ _
                      (read_all-IsAt _ _ (λ text cs h. reads_error text h) fuel n x err)
                      λ err'. Triple-pure _ λ s h. h)
              (λ _. Triple-exits _)

      close-IsAt :
          (n : ℤ) (x : Option Session)
          → Triple (IsAt L held so se (some c)) (close L fuel c n x) (λ b. IsAt L held so se none)
      unfolding close ◌>>◌
      close-IsAt n x =
          Triple-bind _ _ (retry-IsAt L fuel _ _ (outside-IsAt L _) (wait_socket-IsAt L n x)) λ rc.
            Triple-bind _ _
              (Triple-if (eqb_ℤ rc (pos 0)) _ _ (λ _. outside-IsAt L _)
                (λ _. Triple-pure _ λ s h. h))
              λ exitcode.
                Triple-bind _ _
                  (Triple-if (eqb_ℤ rc (pos 0)) _ _ (λ _. outside-IsAt L _)
                    (λ _. Triple-pure _ λ s h. h))
                  λ exitsignal. Triple-then _ _ (does-IsAt L _) (
                    Triple-then _ _ (note-IsAt L (channel_freed c) (λ cs h. frees_channel c h))
                      (Triple-pure _ λ s h. h))

  module _ (refuses : RefusesNoSocket L) where
    connects :
        (c : SshClient L) (se : Option Session) (so : ℤ)
        → (se ≡ none) ⊎ (so ≢ socket_init)
        → c.session ≡ se
        → c.sock ≡ so
        → Triple
            (IsAt L se so se none)
            (if is_unconnected L fuel c then get_connection L fuel else pure tt)
            (λ a. IsSound L)
    connects c se so has e k =
        Triple-if (is_unconnected L fuel c) _ _
          (λ u.
            let gone : se ≡ none = not_held u has in
            Triple-weaken {P = IsAt L none so none none} _
              (λ s h. subst (λ y. IsAt L y so y none s) gone h) (λ a s h. h)
              (get_connection-IsSound L refuses fuel so))
          (λ _. Triple-pure _ λ s h. IsAt-IsSound L s has h)
      where
        unheld :
            (x : Session)
            → c.session ≡ some x
            → is_unconnected L fuel c ≡ true
            → eqb_ℤ c.sock socket_init ≡ true
        unheld x is u = rw is at u

        not_held : is_unconnected L fuel c ≡ true → (se ≡ none) ⊎ (so ≢ socket_init) → se ≡ none
        not_held u (inl gone) = gone
        not_held u (inr ne) = elim (Option-cases c.session) [
          | inl gone ↦ sym e ∙ gone
          | inr (x, is) ↦ absurd (ne (sym k ∙ (eqb_ℤ_iff c.sock socket_init).0 (unheld x is u)))
        ]

    pub execute-IsSound :
        (command out err : String)
        → Triple (IsSound L) (execute L fuel command out err) (λ r. IsSound L)
    unfolding execute ◌>>◌
    execute-IsSound command out err = IsSound-IsAt L _ λ se so has. this-IsAt L _ λ before e k.
        Triple-bind _ _ (connects before se so has e k) λ _. IsSound-IsAt L _ λ se' so' has'.
          this-IsAt L _ λ c same _.
            Triple-bind _ _
              (subst
                (λ x.
                  Triple (IsAt L se' so' se' none) (new_channel L fuel c.sock x)
                    (λ ch. IsAt L se' so' se' (some ch)))
                (sym same) (new_channel-IsAt se' so' se' c.sock))
              λ channel.
                Triple-bind _ _ (exec-IsAt se' so' se' channel c.sock c.session command out err)
                  λ (out', err').
                    Triple-bind _ _ (close-IsAt se' so' se' channel c.sock c.session)
                      λ succeeded. Triple-pure _ λ s h. IsAt-IsSound L s has' h
