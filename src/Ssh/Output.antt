-- ===== src/Ssh/Output.antt =====
-- What `SSHClient::execute` hands back: the texts that the channel gave, and nothing else.
use mathlib.Core.List.{append-nil}
use text.Mathlib.TextLemmas as Text
use jepsen_in_cpp.Prelude.{
  ℕ, zero, suc, String, ◌<>◌, Bool, false, if◌then◌else◌, Option, none, some, List, [], ◌∷◌, ◌++◌,
  map, ◌≡◌, refl, sym, ◌∙◌, ap, subst, done, ◌>>=◌, ◌>>◌, pure, exits, lift,
}
use jepsen_in_cpp.Prelude.Int.{ℤ, pos, negsuc, eqb_ℤ, ltb_ℤ}
use jepsen_in_cpp.Prelude.Hoare.{Triple-exits, Triple-out_of_fuel}
use jepsen_in_cpp.Ssh.Library.{
  Libssh2, SshCall, SshClient, Shell, Ssh, outside, note, this, wait_socket, eagain, channel_made,
  channel_freed, output_read, error_read,
}
use jepsen_in_cpp.Ssh.Channel.{create_channel, new_channel, close, read_chunks, read_all, exec}
use jepsen_in_cpp.Ssh.Client.{execute, is_unconnected}
use jepsen_in_cpp.Ssh.Notes.{
  Notes, outside-Quiet, does-Quiet, note-Notes, wait_socket-Quiet, retry-Quiet, Notes-pure,
  Notes-if, Notes-bind, Notes-then, Notes-weaken, Notes-never,
}

-- Texts one after the other.
abbrev pub concat : List String → String
concat [] = ""
concat (s ∷ ss) = s <> concat ss

concat-append : (xs ys : List String) → concat (xs ++ ys) ≡ concat xs <> concat ys
concat-append [] ys = sym (Text.nil-append (concat ys))
concat-append (x ∷ xs) ys =
    ap (λ t. x <> t) (concat-append xs ys) ∙ sym (Text.append_assoc x (concat xs) (concat ys))

map-append : {A B : Type 0} (f : A → B) (xs ys : List A) → map f (xs ++ ys) ≡ map f xs ++ map f ys
map-append f [] ys = refl
map-append f (x ∷ xs) ys = ap (λ l. f x ∷ l) (map-append f xs ys)

module _ (L : Libssh2) (c : SshClient L) where
  open L use {World, Session, Channel}

  module _ (fuel : ℕ) where
    -- The channel that was made, if any.
    abbrev made : Option Session → Option Channel → List (SshCall L)
    made x none = []
    made x (some ch) = channel_made x ch ∷ []

    create_channel-Notes :
        (rounds : ℕ) (n : ℤ) (x : Option Session)
        → Notes L c (create_channel L fuel rounds n x) (λ o new. new ≡ made x o)
    unfolding create_channel ◌>>◌
    create_channel-Notes zero n x = Notes-never L c _ λ s. Triple-out_of_fuel
    create_channel-Notes (suc rounds) n x =
        Notes-then L c _ _ (outside-Quiet L c _) (by_channel (create_channel-Notes rounds n x))
      where
        by_channel :
            Notes L c (create_channel L fuel rounds n x) (λ o new. new ≡ made x o)
            → (o : Option Channel)
            → Notes L c
                (elim o [
                  | some ch ↦ (do note L (channel_made x ch); pure (some ch))
                  | none ↦ (do
                    rc ← outside L (L.last_error x)
                    if eqb_ℤ rc eagain
                        then (do wait_socket L n x; create_channel L fuel rounds n x)
                        else pure none)
                ])
                (λ o' new. new ≡ made x o')
        by_channel again none = Notes-then L c _ _ (outside-Quiet L c _) λ rc.
            Notes-if L c (eqb_ℤ rc eagain) _ _
              (λ _. Notes-then L c _ _ (wait_socket-Quiet L c n x) λ _. again)
              (λ _. Notes-pure L c none refl)
        by_channel again (some ch) =
            Notes-bind L c _ _ (note-Notes L c (channel_made x ch))
              λ _ new e. Notes-pure L c (some ch) (append-nil new ∙ e)

    new_channel-Notes :
        (n : ℤ) (x : Option Session)
        → Notes L c (new_channel L fuel n x) (λ ch new. new ≡ channel_made x ch ∷ [])
    unfolding new_channel
    new_channel-Notes n x = Notes-bind L c _ _ (create_channel-Notes fuel n x) by_channel
      where
        by_channel :
            (o : Option Channel) (new : List (SshCall L))
            → new ≡ made x o
            → Notes L c
                (elim o [ some ch ↦ pure ch | none ↦ λ s. exits (negsuc 0) ])
                (λ ch later. new ++ later ≡ channel_made x ch ∷ [])
        by_channel none new e = Notes-never L c _ λ s. Triple-exits _
        by_channel (some ch) new e = Notes-pure L c ch (append-nil new ∙ e)

    module _ (read : World → (ℤ × String) × World) (noted : String → SshCall L) where
      -- The texts that were read are noted, and are what is added to the text.
      abbrev IsRead : String → String → List (SshCall L) → Type 0
      IsRead text text' new =
          (bufs : List String) × (new ≡ map noted bufs) × (text' ≡ text <> concat bufs)

      read_chunks-Notes :
          (rounds : ℕ) (text : String)
          → Notes L c (read_chunks L fuel read noted rounds text) (λ r. IsRead text r.1)
      unfolding read_chunks ◌>>◌
      read_chunks-Notes zero text = Notes-never L c _ λ s. Triple-out_of_fuel
      read_chunks-Notes (suc rounds) text = Notes-then L c _ _ (outside-Quiet L c _) λ (rc, buf).
          Notes-if L c (ltb_ℤ (pos 0) rc) _ _
            (λ _. Notes-bind L c _ _ (note-Notes L c (noted buf)) λ _ new e.
              Notes-weaken L c _ (read_chunks-Notes rounds (text <> buf)) λ r later (bufs, k, l).
                (buf ∷ bufs, cc (e, k), l ∙ Text.append_assoc text buf (concat bufs)))
            (λ _. Notes-pure L c _ ([], refl, sym (Text.append-nil text)))

      read_all-Notes :
          (rounds : ℕ) (n : ℤ) (x : Option Session) (text : String)
          → Notes L c (read_all L fuel read noted rounds n x text) (λ t. IsRead text t)
      unfolding read_all ◌>>◌
      read_all-Notes zero n x text = Notes-never L c _ λ s. Triple-out_of_fuel
      read_all-Notes (suc rounds) n x text =
          Notes-bind L c _ _ (read_chunks-Notes fuel text) λ (rc, text') new (bufs, k, l).
            Notes-if L c (eqb_ℤ rc eagain) _ _
              (λ _. Notes-then L c _ _ (wait_socket-Quiet L c n x) λ _.
                Notes-weaken L c _ (read_all-Notes rounds n x text') λ t later (more, k', l'). (
                  bufs ++ more,
                  rw (k, k') (sym (map-append noted bufs more)),
                  l'
                      ∙ rw l (Text.append_assoc text (concat bufs) (concat more))
                      ∙ ap (λ u. text <> u) (sym (concat-append bufs more)),
                ))
              (λ _. Notes-pure L c _ (bufs, append-nil new ∙ k, l))

    -- What a command leaves behind: the calls of its channel, and its outputs after the texts before.
    abbrev pub IsStreamed : (out err : String) → String × String → List (SshCall L) → Type 0
    IsStreamed out err (out', err') new =
        (outs errs : List String) × (new
          ≡ map (λ u. output_read u) outs ++ map (λ u. error_read u) errs)
        × (out' ≡ out <> concat outs)
        × (err' ≡ err <> concat errs)

    exec-Notes :
        (ch : Channel) (n : ℤ) (x : Option Session) (command out err : String)
        → Notes L c (exec L fuel ch n x command out err) (IsStreamed out err)
    unfolding exec
    exec-Notes ch n x command out err =
        Notes-then L c _ _
          (retry-Quiet L c fuel _ _ (outside-Quiet L c _) (wait_socket-Quiet L c n x))
          λ rc.
            Notes-if L c (eqb_ℤ rc (pos 0)) _ _
              (λ _.
                Notes-bind L c _ _ (read_all-Notes _ (λ u. output_read u) fuel n x out)
                  λ out' new (outs, k, l).
                    Notes-bind L c _ _ (read_all-Notes _ (λ u. error_read u) fuel n x err)
                      λ err' more (errs, k', l').
                        Notes-pure L c _ (outs, errs, cc (append-nil more, k, k'), l, l'))
              (λ _. Notes-never L c _ λ s. Triple-exits _)

    close-Notes :
        (ch : Channel) (n : ℤ) (x : Option Session)
        → Notes L c (close L fuel ch n x) (λ b new. new ≡ channel_freed ch ∷ [])
    unfolding close ◌>>◌
    close-Notes ch n x =
        Notes-then L c _ _
          (retry-Quiet L c fuel _ _ (outside-Quiet L c _) (wait_socket-Quiet L c n x))
          λ rc.
            Notes-then L c _ _
              (Notes-if L c (eqb_ℤ rc (pos 0)) _ _ (λ _. outside-Quiet L c _)
                (λ _. Notes-pure L c _ refl))
              λ exitcode.
                Notes-then L c _ _
                  (Notes-if L c (eqb_ℤ rc (pos 0)) _ _ (λ _. outside-Quiet L c _)
                    (λ _. Notes-pure L c _ refl))
                  λ exitsignal. Notes-then L c _ _ (does-Quiet L c _) λ _.
                    Notes-bind L c _ _ (note-Notes L c (channel_freed ch))
                      λ _ new e. Notes-pure L c _ (append-nil new ∙ e)

    Notes-this :
        {A : Type 0} {Q : A → List (SshCall L) → Type 0} (k : SshClient L → Ssh L A)
        → Notes L c (k c) Q
        → Notes L c (this L >>= k) Q
    unfolding ◌>>=◌ lift
    Notes-this k h = record {
      apply =
          λ s a s' e r. h.apply s a s' e (subst (λ (x : SshClient L). k x s ≡ done (a, s')) e r);
    }

    execute-Notes :
        (command out err : String)
        → is_unconnected L fuel c ≡ false
        → Notes L c (execute L fuel command out err) (λ r new.
          (ch : Channel) × (read : List (SshCall L)) × (new
            ≡ channel_made c.session ch ∷ read ++ channel_freed ch ∷ [])
          × IsStreamed out err (r.1, r.2) read)
    unfolding execute ◌>>◌
    execute-Notes command out err connected = Notes-this _ (
        Notes-then L c _ _
          (Notes-if L c (is_unconnected L fuel c) _ _ (λ e. absurd (cc (e, connected)))
            (λ _. Notes-pure L c tt refl))
          λ _. Notes-this _ (
            Notes-bind L c _ _ (new_channel-Notes c.sock c.session) λ ch m k.
              Notes-bind L c _ _ (exec-Notes ch c.sock c.session command out err)
                λ outputs read streamed.
                  Notes-bind L c _ _ (close-Notes ch c.sock c.session)
                    λ b f l. Notes-pure L c _ (ch, read, cc (append-nil f, k, l), streamed)))

-- A client that holds a session and a socket, whether that session was authenticated or not, executes a
-- command without connecting again. Where that returns, it made one channel in that session, read from it and freed it,
-- and called for nothing else; what it hands back are the texts that it was given, with what was read
-- from each stream behind them, in order and without loss.
pub execute-streams :
    (L : Libssh2) (fuel : ℕ) (s s' : Shell L) (command out err : String) (succeeded : Bool)
    (out' err' : String)
    → is_unconnected L fuel s.client ≡ false
    → execute L fuel command out err s ≡ done ((succeeded, out', err'), s')
    → (channel : L.Channel) × (outs errs : List String) × (s'.client ≡ s.client)
      × (s'.calls
          ≡ s.calls
            ++ (channel_made s.client.session channel
                  ∷ (map (λ u. output_read u) outs ++ map (λ u. error_read u) errs)
                ++ channel_freed channel ∷ []))
      × (out' ≡ out <> concat outs)
      × (err' ≡ err <> concat errs)
execute-streams L fuel s s' command out err succeeded out' err' connected returned =
    let (new, same, calls, (channel, read, k, (outs, errs, l, o, e))) =
      (execute-Notes L s.client fuel command out err connected).apply s (succeeded, out', err') s'
        refl returned in
    (
      channel,
      outs,
      errs,
      same,
      calls
          ∙ ap (λ x. s.calls ++ x)
              (k
                ∙ ap (λ r. channel_made s.client.session channel ∷ r ++ channel_freed channel ∷ [])
                    l),
      o,
      e,
    )
