-- ===== src/Ssh/Sessions.antt =====
-- The methods of `SSHClient` keep to the protocol of libssh2.
use jepsen_in_cpp.Prelude.{
  ℕ, Bool, Option, none, some, ◌≡◌, refl, sym, subst, ◌≢◌, ◌⊎◌, inl, inr, ◌>>◌, ◌∙◌,
}
use jepsen_in_cpp.Prelude.Int.{ℤ, pos, eqb_ℤ, eqb_ℤ_iff}
use jepsen_in_cpp.Prelude.Hoare.{
  Triple, Triple-pure, Triple-lift, Triple-if, Triple-weaken, Triple-bind, Triple-option,
  Triple-given, Triple-then,
}
use jepsen_in_cpp.Prelude.Text.{is_empty}
use jepsen_in_cpp.Ssh.Library.{
  Libssh2, Shell, Ssh, outside, socket_init, socket_made, socket_closed, session_made,
  session_freed, shook_hands, authenticated,
}
use jepsen_in_cpp.Ssh.Client.{
  end_session, end_socket, disconnect, look_up_host, authenticate, begin_session, connect_to,
  get_connection,
}
use jepsen_in_cpp.Ssh.Protocol.{
  Follows, makes_socket, closes_socket, makes_session, frees_session, shakes, authenticates, IsAt,
  outside-IsAt, does-IsAt, note-IsAt, set_session-IsAt, set_sock-IsAt, this-IsAt, retry-IsAt,
}

module _ (L : Libssh2) where
  open L use {World, Session, Channel, KnownHosts}

  -- The client holds the session that the calls hold, if any, and then has a socket.
  pub record IsSound (s : Shell L) : Type 0 where
    pub follows : Follows L s.calls s.client.session none
    pub has_socket : (s.client.session ≡ none) ⊎ (s.client.sock ≢ socket_init)

  pub IsAt-IsSound :
      {se : Option Session} {so : ℤ} (s : Shell L)
      → (se ≡ none) ⊎ (so ≢ socket_init)
      → IsAt L se so se none s
      → IsSound s
  IsAt-IsSound s h at = record {
    follows = subst (λ x. Follows L s.calls x none) (sym at.session) at.follows;
    has_socket = elim h [ inl e ↦ inl (at.session ∙ e) | inr ne ↦ inr (λ e. ne (sym at.sock ∙ e)) ];
  }

  end_session-IsAt :
      (se : Option Session) (so : ℤ)
      → Triple (IsAt L se so se none) (end_session L) (λ a. IsAt L none so none none)
  unfolding end_session ◌>>◌
  end_session-IsAt se so = this-IsAt L _ λ c e _.
      Triple-option c.session _ _
        (λ k. Triple-pure _ λ s h. subst (λ x. IsAt L x so x none s) (sym e ∙ k) h)
        λ x k.
          Triple-weaken {P = IsAt L (some x) so (some x) none} _
            (λ s h. subst (λ y. IsAt L y so y none s) (sym e ∙ k) h) (λ a s h. h)
            (Triple-then _ _ (does-IsAt L _) (
              Triple-then _ _ (does-IsAt L _) (
                Triple-then _ _ (note-IsAt L (session_freed x) (λ cs h. frees_session x h))
                  (set_session-IsAt L none))))

  end_socket-IsAt :
      (held : Option Session) (so : ℤ) (se : Option Session)
      → Triple (IsAt L held so se none) (end_socket L) (λ a. IsAt L held socket_init se none)
  unfolding end_socket ◌>>◌
  end_socket-IsAt held so se = this-IsAt L _ λ c _ e.
      Triple-if (eqb_ℤ c.sock socket_init) _ _
        (λ k. Triple-pure _ λ s h.
          subst (λ n. IsAt L held n se none s) (sym e ∙ (eqb_ℤ_iff c.sock socket_init).0 k) h)
        (λ k. Triple-then _ _ (does-IsAt L _) (
          Triple-then _ _ (note-IsAt L (socket_closed c.sock) (λ cs h. closes_socket c.sock h))
            (set_sock-IsAt L socket_init)))

  disconnect-IsAt :
      (se : Option Session) (so : ℤ)
      → Triple (IsAt L se so se none) (disconnect L) (λ a. IsAt L none socket_init none none)
  unfolding disconnect ◌>>◌
  disconnect-IsAt se so =
      Triple-then _ _ (end_session-IsAt se so)
        (Triple-then _ _ (end_socket-IsAt none so none) (Triple-pure _ λ s h. h))

  look_up_host-IsAt :
      (fuel : ℕ) (x : Session) (se : Option Session) (so : ℤ)
      → Triple (IsAt L se so se none) (look_up_host L fuel x) (λ a. IsAt L se so se none)
  unfolding look_up_host ◌>>◌
  look_up_host-IsAt fuel x se so = this-IsAt L _ λ c _ _. Triple-bind _ _ (outside-IsAt L _) λ made.
      Triple-option made _ _ (λ _. Triple-pure _ λ s h. h)
        λ nh _. Triple-then _ _ (does-IsAt L _) (
          Triple-then _ _ (does-IsAt L _) (
            Triple-bind _ _ (outside-IsAt L _) λ fingerprint.
              Triple-option fingerprint _ _ (λ _. Triple-pure _ λ s h. h)
                λ key _.
                  Triple-bind _ _ (outside-IsAt L _)
                    λ checked. Triple-then _ _ (does-IsAt L _) (Triple-pure _ λ s h. h)))

  -- What authenticating leaves behind.
  abbrev Started : Bool → Shell L → Type 0
  Started b = IsSound

  authenticate-IsSound :
      (fuel : ℕ) (x : Session) (so : ℤ)
      → so ≢ socket_init
      → Triple (IsAt L (some x) so (some x) none) (authenticate L fuel x) (λ b. IsSound)
  unfolding authenticate ◌>>◌
  authenticate-IsSound fuel x so set = this-IsAt L _ λ c _ _.
      Triple-bind _ _
        (retry-IsAt L fuel _ _
          (Triple-if (is_empty c.password) _ _ (λ _. outside-IsAt L _) (λ _. outside-IsAt L _))
          (Triple-pure _ λ s h. h))
        λ rc. Triple-then _ _ (note-IsAt L (authenticated x rc) (λ cs h. authenticates x rc h)) (
          Triple-if (eqb_ℤ rc (pos 0)) _ _ (λ _. Triple-pure _ λ s h. IsAt-IsSound s (inr set) h)
            (λ _.
              Triple-bind _ _ (disconnect-IsAt (some x) so)
                λ ended. Triple-pure _ λ s h. IsAt-IsSound s (inl refl) h))

  begin_session-IsSound :
      (fuel : ℕ) (x : Session) (so : ℤ)
      → so ≢ socket_init
      → Triple (IsAt L (some x) so (some x) none) (begin_session L fuel x so) (λ b. IsSound)
  unfolding begin_session ◌>>◌
  begin_session-IsSound fuel x so set = Triple-then _ _ (does-IsAt L _) (
      Triple-bind _ _ (retry-IsAt L fuel _ _ (outside-IsAt L _) (Triple-pure _ λ s h. h)) λ rc.
        Triple-then _ _ (note-IsAt L (shook_hands x rc) (λ cs h. shakes x rc h)) (
          Triple-if (eqb_ℤ rc (pos 0)) _ _
            (λ _. Triple-bind _ _ (look_up_host-IsAt fuel x (some x) so) λ found.
              Triple-if found _ _ (λ _. authenticate-IsSound fuel x so set)
                (λ _. Triple-pure _ λ s h. IsAt-IsSound s (inr set) h))
            (λ _. Triple-pure _ λ s h. IsAt-IsSound s (inr set) h)))

  -- `connect` refuses the socket -1, which is none.
  abbrev pub RefusesNoSocket : Type 0
  RefusesNoSocket =
      (host_addr port : ℤ) (world : World) → (L.connect socket_init host_addr port world).0 ≢ pos 0

  module _ (refuses : RefusesNoSocket) where
    connected_socket :
        (n host_addr port : ℤ) {se : Option Session}
        → Triple
            (IsAt L none n se none)
            (outside L (L.connect n host_addr port))
            (λ rc s. IsAt L none n se none s × ((rc ≡ pos 0) → n ≢ socket_init))
    connected_socket n host_addr port = Triple-lift _ λ s h. (
      record { session = h.session; sock = h.sock; follows = h.follows },
      λ e is.
          refuses host_addr port s.world
            (subst (λ m. (L.connect m host_addr port s.world).0 ≡ pos 0) is e),
    )

    connect_to-IsSound :
        (fuel : ℕ) (so : ℤ) → Triple (IsAt L none so none none) (connect_to L fuel) (λ b. IsSound)
    unfolding connect_to ◌>>◌
    connect_to-IsSound fuel so = this-IsAt L _ λ c _ _. Triple-bind _ _ (outside-IsAt L _) λ n.
        Triple-then _ _ (set_sock-IsAt L n) (
          Triple-then _ _ (note-IsAt L (socket_made n) (λ cs h. makes_socket n h)) (
            Triple-bind _ _ (connected_socket n c.host_addr c.port) λ rc.
              Triple-if (eqb_ℤ rc (pos 0)) _ _
                (λ e. Triple-given _ λ connected.
                  let set : n ≢ socket_init = connected ((eqb_ℤ_iff rc (pos 0)).0 e) in
                  Triple-bind _ _ (outside-IsAt L _) λ made.
                    Triple-then _ _ (set_session-IsAt L made) (
                      Triple-option made _ _
                        (λ k. Triple-pure _ λ s h.
                          IsAt-IsSound s (inl refl) (subst (λ y. IsAt L y n none none s) k h))
                        λ x k.
                          Triple-weaken {P = IsAt L (some x) n none none} _
                            (λ s h. subst (λ y. IsAt L y n none none s) k h) (λ a s h. h)
                            (Triple-then _ _
                              (note-IsAt L (session_made x) (λ cs h. makes_session x h))
                              (begin_session-IsSound fuel x n set))))
                (λ _. Triple-pure _ λ s h. IsAt-IsSound s (inl refl) h.0)))

    pub get_connection-IsSound :
        (fuel : ℕ) (so : ℤ)
        → Triple (IsAt L none so none none) (get_connection L fuel) (λ a. IsSound)
    unfolding get_connection
    get_connection-IsSound fuel so =
        Triple-bind _ _ (connect_to-IsSound fuel so) λ connected. Triple-pure _ λ s h. h

  -- Between two methods: some session, or none, and some socket.
  pub IsSound-IsAt :
      {A : Type 0} {Q : A → Shell L → Type 0} (m : Ssh L A)
      → ((se : Option Session) (so : ℤ)
          → (se ≡ none) ⊎ (so ≢ socket_init)
          → Triple (IsAt L se so se none) m Q)
      → Triple IsSound m Q
  IsSound-IsAt m f = record {
    apply = λ s a s' h e.
        (f s.client.session s.client.sock h.has_socket).apply s a s'
          (record { session = refl; sock = refl; follows = h.follows }) e;
  }

  pub disconnect-frees : Triple IsSound (disconnect L) (λ b. IsAt L none socket_init none none)
  disconnect-frees = IsSound-IsAt _ λ se so _. disconnect-IsAt se so
