-- ===== src/Ssh/Notes.antt =====
-- The calls that a step of an `SSHClient` adds to the log, where it leaves the client as it is.
use mathlib.Core.List.{append-nil, append_assoc}
use jepsen_in_cpp.Prelude.{
  ℕ, zero, suc, Bool, true, false, if◌then◌else◌, Option, List, [], ◌∷◌, ◌++◌, ◌≡◌, refl, sym, ◌∙◌,
  ap, subst, done, ◌>>=◌, ◌>>◌, pure, >>=-eq-done,
}
use jepsen_in_cpp.Prelude.Int.{ℤ, pos, eqb_ℤ, ltb_ℤ}
use jepsen_in_cpp.Prelude.Hoare.{Triple, Triple-pure, Triple-lift, Triple-fault, Triple-out_of_fuel}
use jepsen_in_cpp.Ssh.Library.{
  Libssh2, SshCall, SshClient, Shell, Ssh, outside, does, note, wait_socket, retry, eagain,
}

module _ (L : Libssh2) (c : SshClient L) where
  open L use {World, Session, Channel}

  -- `m` leaves the client as it is, and where it returns, `Q` holds of its result and of the calls that it
  -- adds.
  pub record Notes {A : Type 0} (m : Ssh L A) (Q : A → List (SshCall L) → Type 0) : Type 0 where
    pub apply :
        (s : Shell L) (a : A) (s' : Shell L)
        → s.client ≡ c
        → m s ≡ done (a, s')
        → (new : List (SshCall L)) × (s'.client ≡ c) × (s'.calls ≡ s.calls ++ new) × Q a new

  -- What adds no call.
  abbrev pub Quiet : {A : Type 0} → Ssh L A → Type 0
  Quiet m = Notes m (λ a new. new ≡ [])

  module _ {A : Type 0} {Q : A → List (SshCall L) → Type 0} where
    -- What holds after each return, for computations without a state of interest.
    pub Notes-of :
        (m : Ssh L A)
        → ((s : Shell L)
            → Triple
                (λ t. (t ≡ s) × (s.client ≡ c))
                m
                (λ a s'.
                  (new : List (SshCall L)) × (s'.client ≡ c)
                  × (s'.calls ≡ s.calls ++ new)
                  × Q a new))
        → Notes m Q
    Notes-of m h = record { apply = λ s a s' k e. (h s).apply s a s' (refl, k) e }

    pub Notes-never :
        (m : Ssh L A)
        → ((s : Shell L) → Triple (λ t. (t ≡ s) × (s.client ≡ c)) m (λ a s'. ⊥))
        → Notes m Q
    Notes-never m h = record { apply = λ s a s' k e. elim ((h s).apply s a s' (refl, k) e) [ ] }

    pub Notes-pure : (a : A) → Q a [] → Notes (pure a) Q
    Notes-pure a q = Notes-of _ λ s. Triple-pure a λ t (e, k). (
      [],
      ap (λ (x : Shell L). x.client) e ∙ k,
      ap (λ (x : Shell L). x.calls) e ∙ sym (append-nil s.calls),
      q,
    )

    pub Notes-if :
        (b : Bool) (x y : Ssh L A)
        → (b ≡ true → Notes x Q)
        → (b ≡ false → Notes y Q)
        → Notes (if b then x else y) Q
    Notes-if true x y h k = h refl
    Notes-if false x y h k = k refl

  pub Notes-bind :
      {A B : Type 0} {P : A → List (SshCall L) → Type 0} {Q : B → List (SshCall L) → Type 0}
      (m : Ssh L A) (f : A → Ssh L B)
      → Notes m P
      → ((a : A) (new : List (SshCall L)) → P a new → Notes (f a) (λ b later. Q b (new ++ later)))
      → Notes (m >>= f) Q
  Notes-bind m f h k = record {
    apply = λ s b s'' e r.
        let (a, s', r₁, r₂) = >>=-eq-done m f s r in
        let (new, e', l, p) = h.apply s a s' e r₁ in
        let (later, e'', l', q) = (k a new p).apply s' b s'' e' r₂ in
        (new ++ later, e'', l' ∙ ap (λ x. x ++ later) l ∙ append_assoc s.calls new later, q);
  }

  -- A step that adds no call, and one whose call is known.
  pub Notes-then :
      {A B : Type 0} {Q : B → List (SshCall L) → Type 0} (m : Ssh L A) (f : A → Ssh L B)
      → Quiet m
      → ((a : A) → Notes (f a) Q)
      → Notes (m >>= f) Q
  Notes-then {Q = Q} m f h k =
      Notes-bind m f h
        λ a new e. subst (λ l. Notes (f a) (λ b later. Q b (l ++ later))) (sym e) (k a)

  pub outside-Quiet : {A : Type 0} (f : World → A × World) → Quiet (outside L f)
  outside-Quiet f = Notes-of _ λ s. Triple-lift _ λ t (e, k). (
    [],
    ap (λ (x : Shell L). x.client) e ∙ k,
    ap (λ (x : Shell L). x.calls) e ∙ sym (append-nil s.calls),
    refl,
  )

  pub does-Quiet : (f : World → World) → Quiet (does L f)
  does-Quiet f = Notes-of _ λ s. Triple-lift _ λ t (e, k). (
    [],
    ap (λ (x : Shell L). x.client) e ∙ k,
    ap (λ (x : Shell L). x.calls) e ∙ sym (append-nil s.calls),
    refl,
  )

  pub note-Notes : (call : SshCall L) → Notes (note L call) (λ a new. new ≡ call ∷ [])
  note-Notes call = Notes-of _ λ s. Triple-lift _ λ t (e, k). (
    call ∷ [],
    ap (λ (x : Shell L). x.client) e ∙ k,
    ap (λ (x : Shell L). x.calls ++ call ∷ []) e,
    refl,
  )

  pub Notes-weaken :
      {A : Type 0} {P Q : A → List (SshCall L) → Type 0} (m : Ssh L A)
      → Notes m P
      → ((a : A) (new : List (SshCall L)) → P a new → Q a new)
      → Notes m Q
  Notes-weaken m h k = record {
    apply = λ s a s' e r. let (new, e', l, p) = h.apply s a s' e r in (new, e', l, k a new p);
  }

  pub wait_socket-Quiet : (n : ℤ) (x : Option Session) → Quiet (wait_socket L n x)
  unfolding wait_socket
  wait_socket-Quiet n x = Notes-then _ _ (outside-Quiet _) λ dir.
      Notes-if (ltb_ℤ n (pos 0)) _ _ (λ _. Notes-never _ λ s. Triple-fault) (λ _. does-Quiet _)

  pub retry-Quiet :
      (rounds : ℕ) (m : Ssh L ℤ) (wait : Ssh L (Unit {0}))
      → Quiet m
      → Quiet wait
      → Quiet (retry L rounds m wait)
  unfolding retry ◌>>◌
  retry-Quiet zero m wait h k = Notes-never _ λ s. Triple-out_of_fuel
  retry-Quiet (suc rounds) m wait h k = Notes-then _ _ h λ rc.
      Notes-if (eqb_ℤ rc eagain) _ _ (λ _. Notes-then _ _ k λ _. retry-Quiet rounds m wait h k)
        (λ _. Notes-pure rc refl)
