-- ===== src/Ssh/Protocol.antt =====
-- The order in which libssh2 wants its calls: a session is made while none is held, it is used only
-- while it is held, and it is freed once; the same for a channel, which is made in the session that is
-- held, or in the null pointer where none is.
use jepsen_in_cpp.Prelude.{
  ℕ, zero, suc, String, Option, none, some, List, [], ◌∷◌, ◌++◌, ◌≡◌, refl, ◌>>=◌, ◌>>◌,
}
use jepsen_in_cpp.Prelude.Int.{ℤ, pos, eqb_ℤ, ltb_ℤ}
use jepsen_in_cpp.Prelude.Hoare.{
  Triple, Triple-pure, Triple-lift, Triple-fault, Triple-out_of_fuel, Triple-if, Triple-bind,
  Triple-then,
}
use jepsen_in_cpp.Ssh.Library.{
  Libssh2, SshCall, SshClient, Shell, Ssh, outside, does, note, this, set_sock, set_session,
  wait_socket, retry, eagain, socket_made, socket_closed, session_made, session_freed, shook_hands,
  authenticated, channel_made, channel_freed, output_read, error_read,
}

module _ (L : Libssh2) where
  open L use {World, Session, Channel, KnownHosts}

  -- The calls, in order, with the session and the channel that are held after them.
  pub data Follows : List (SshCall L) → Option Session → Option Channel → Type 0 where
    begins : Follows [] none none
    makes_socket :
        {cs : List (SshCall L)} {se : Option Session} {ch : Option Channel} (n : ℤ)
        → Follows cs se ch
        → Follows (cs ++ socket_made n ∷ []) se ch
    closes_socket :
        {cs : List (SshCall L)} {se : Option Session} {ch : Option Channel} (n : ℤ)
        → Follows cs se ch
        → Follows (cs ++ socket_closed n ∷ []) se ch
    makes_session :
        {cs : List (SshCall L)} {ch : Option Channel} (x : Session)
        → Follows cs none ch
        → Follows (cs ++ session_made x ∷ []) (some x) ch
    frees_session :
        {cs : List (SshCall L)} {ch : Option Channel} (x : Session)
        → Follows cs (some x) ch
        → Follows (cs ++ session_freed x ∷ []) none ch
    shakes :
        {cs : List (SshCall L)} {ch : Option Channel} (x : Session) (rc : ℤ)
        → Follows cs (some x) ch
        → Follows (cs ++ shook_hands x rc ∷ []) (some x) ch
    authenticates :
        {cs : List (SshCall L)} {ch : Option Channel} (x : Session) (rc : ℤ)
        → Follows cs (some x) ch
        → Follows (cs ++ authenticated x rc ∷ []) (some x) ch
    makes_channel :
        {cs : List (SshCall L)} {se : Option Session} (c : Channel)
        → Follows cs se none
        → Follows (cs ++ channel_made se c ∷ []) se (some c)
    frees_channel :
        {cs : List (SshCall L)} {se : Option Session} (c : Channel)
        → Follows cs se (some c)
        → Follows (cs ++ channel_freed c ∷ []) se none
    reads_output :
        {cs : List (SshCall L)} {se : Option Session} {c : Channel} (text : String)
        → Follows cs se (some c)
        → Follows (cs ++ output_read text ∷ []) se (some c)
    reads_error :
        {cs : List (SshCall L)} {se : Option Session} {c : Channel} (text : String)
        → Follows cs se (some c)
        → Follows (cs ++ error_read text ∷ []) se (some c)

  -- The session and the socket that the client holds, and what is held by the calls.
  pub record IsAt (held : Option Session) (so : ℤ) (se : Option Session) (ch : Option Channel)
      (s : Shell L) : Type 0 where
    pub session : s.client.session ≡ held
    pub sock : s.client.sock ≡ so
    pub follows : Follows s.calls se ch

  module _ {held : Option Session} {so : ℤ} {se : Option Session} {ch : Option Channel} where
    pub outside-IsAt :
        {A : Type 0} (f : World → A × World)
        → Triple (IsAt held so se ch) (outside L f) (λ a. IsAt held so se ch)
    outside-IsAt f =
        Triple-lift _ λ s h. record { session = h.session; sock = h.sock; follows = h.follows }

    pub does-IsAt :
        (f : World → World) → Triple (IsAt held so se ch) (does L f) (λ a. IsAt held so se ch)
    does-IsAt f =
        Triple-lift _ λ s h. record { session = h.session; sock = h.sock; follows = h.follows }

    pub note-IsAt :
        (c : SshCall L) {se' : Option Session} {ch' : Option Channel}
        → ((cs : List (SshCall L)) → Follows cs se ch → Follows (cs ++ c ∷ []) se' ch')
        → Triple (IsAt held so se ch) (note L c) (λ a. IsAt held so se' ch')
    note-IsAt c f =
        Triple-lift _
          λ s h. record { session = h.session; sock = h.sock; follows = f s.calls h.follows }

    pub set_session-IsAt :
        (new : Option Session)
        → Triple (IsAt held so se ch) (set_session L new) (λ a. IsAt new so se ch)
    set_session-IsAt new =
        Triple-lift _ λ s h. record { session = refl; sock = h.sock; follows = h.follows }

    pub set_sock-IsAt :
        (new : ℤ) → Triple (IsAt held so se ch) (set_sock L new) (λ a. IsAt held new se ch)
    set_sock-IsAt new =
        Triple-lift _ λ s h. record { session = h.session; sock = refl; follows = h.follows }

    -- A method reads the fields of the client, and goes on.
    pub this-IsAt :
        {A : Type 0} {Q : A → Shell L → Type 0} (k : SshClient L → Ssh L A)
        → ((c : SshClient L) → c.session ≡ held → c.sock ≡ so → Triple (IsAt held so se ch) (k c) Q)
        → Triple (IsAt held so se ch) (this L >>= k) Q
    this-IsAt k f =
        Triple-bind {Q = λ c s. IsAt held so se ch s × (c.session ≡ held) × (c.sock ≡ so)} _ _
          (Triple-lift _ λ s h. (h, h.session, h.sock))
          λ c. record { apply = λ s a s' h e. (f c h.1 h.2).apply s a s' h.0 e }

    pub wait_socket-IsAt :
        (n : ℤ) (x : Option Session)
        → Triple (IsAt held so se ch) (wait_socket L n x) (λ a. IsAt held so se ch)
    unfolding wait_socket
    wait_socket-IsAt n x =
        Triple-bind _ _ (outside-IsAt _)
          λ dir. Triple-if (ltb_ℤ n (pos 0)) _ _ (λ _. Triple-fault) (λ _. does-IsAt _)

    pub retry-IsAt :
        (fuel : ℕ) (m : Ssh L ℤ) (wait : Ssh L (Unit {0}))
        → Triple (IsAt held so se ch) m (λ a. IsAt held so se ch)
        → Triple (IsAt held so se ch) wait (λ a. IsAt held so se ch)
        → Triple (IsAt held so se ch) (retry L fuel m wait) (λ a. IsAt held so se ch)
    unfolding retry ◌>>◌
    retry-IsAt zero m wait h k = Triple-out_of_fuel
    retry-IsAt (suc fuel) m wait h k = Triple-bind _ _ h λ rc.
        Triple-if (eqb_ℤ rc eagain) _ _ (λ _. Triple-then _ _ k (retry-IsAt fuel m wait h k))
          (λ _. Triple-pure _ λ s p. p)
