-- ===== src/Control/Log.antt =====
-- The commands that are sent to a remote host: a remote that also writes them down, each with whether
-- it succeeded.
use mathlib.Core.List.{append-nil, append_assoc}
use jepsen_in_cpp.Prelude.{
  String, Bool, true, false, if◌then◌else◌, Option, some, List, [], ◌∷◌, ◌++◌, ◌<>◌, ◌≡◌, refl, sym,
  ◌∙◌, ap, subst, M, done, fault, exits, out_of_fuel, ◌>>=◌, pure, or_fault,
}
use jepsen_in_cpp.Prelude.Total.{Total}
use jepsen_in_cpp.Ssh.Remote.{Remote, sudo, execute_quietly, sudo_execute}
use jepsen_in_cpp.Control.{exists}

abbrev pub Sent : Type 0
Sent = List (String × Bool)

abbrev pub Logged : Type 0 → Type 0
Logged S = S × Sent

-- The remote with its log: what `run` does, and the command at the end of the log.
abbrev pub logged : {S : Type 0} → Remote S → Remote (Logged S)
logged remote = record {
  run = λ cmd (s, log). elim (remote.run cmd s) [
    | done (r, s') ↦ done (r, (s', log ++ (cmd, r.0) ∷ []))
    | fault ↦ fault
    | exits n ↦ exits n
    | out_of_fuel ↦ out_of_fuel
  ];
  password = remote.password;
  format = remote.format;
}

-- Each command returns, whether it succeeds or not.
abbrev pub IsAnswering : {S : Type 0} → Remote S → Type 0
IsAnswering remote = (cmd : String) → Total (λ r. Unit {0}) (remote.run cmd)

-- `m` returns, and `Q` holds of its result and of what it appends to the log.
pub record Sends {S A : Type 0} (m : M (Logged S) A) (Q : A → Sent → Type 0) : Type 0 where
  pub run :
      (s : S) (log : Sent)
      → (a : A) × (s' : S) × (sent : Sent) × (m (s, log) ≡ done (a, (s', log ++ sent))) × Q a sent

module _ {S A : Type 0} {Q : A → Sent → Type 0} where
  pub Sends-pure : (a : A) → Q a [] → Sends {S = S} (pure a) Q
  unfolding pure
  Sends-pure a h = record {
    run = λ s log. (a, s, [], ap (λ l. done (a, (s, l))) (sym (append-nil log)), h);
  }

  pub Sends-or_fault : (o : Option A) (a : A) → o ≡ some a → Q a [] → Sends {S = S} (or_fault o) Q
  unfolding or_fault
  Sends-or_fault o a e h = record {
    run = λ s log. (a, s, [], rw e (ap (λ l. done (a, (s, l))) (sym (append-nil log))), h);
  }

  pub Sends-if :
      (b : Bool) (x y : M (Logged S) A)
      → (b ≡ true → Sends x Q)
      → (b ≡ false → Sends y Q)
      → Sends (if b then x else y) Q
  Sends-if true x y h k = h refl
  Sends-if false x y h k = k refl

pub Sends-bind :
    {S A B : Type 0} {P : A → Sent → Type 0} {Q : B → Sent → Type 0} (m : M (Logged S) A)
    (f : A → M (Logged S) B)
    → Sends m P
    → ((a : A) (sent : Sent) → P a sent → Sends (f a) (λ b later. Q b (sent ++ later)))
    → Sends (m >>= f) Q
unfolding ◌>>=◌
Sends-bind m f h k = record {
  run = λ s log.
      let (a, s₁, sent, e, p) = h.run s log in
      let (b, s₂, later, e', q) = (k a sent p).run s₁ (log ++ sent) in
      (
        b,
        s₂,
        sent ++ later,
        rw (◌>>=◌, e, e') (ap (λ l. done (b, (s₂, l))) (append_assoc log sent later)),
        q,
      );
}

module _ {S A B : Type 0} {Q : B → Sent → Type 0} where
  -- A value that is known is put in its place.
  pub Sends-let : (a : A) (f : A → M (Logged S) B) → Sends (f a) Q → Sends (pure a >>= f) Q
  unfolding ◌>>=◌ pure
  Sends-let a f h = record { run = h.run }

  pub Sends-taken :
      (o : Option A) (a : A) (f : A → M (Logged S) B)
      → o ≡ some a
      → Sends (f a) Q
      → Sends (or_fault o >>= f) Q
  unfolding ◌>>=◌ or_fault
  Sends-taken o a f e h = record { run = λ s log. rw (◌>>=◌, or_fault, e) (h.run s log) }

  -- A step whose result is known, and that sends nothing.
  pub Sends-known :
      (m : M (Logged S) A) (x : A) (f : A → M (Logged S) B)
      → Sends m (λ a sent. (a ≡ x) × (sent ≡ []))
      → Sends (f x) Q
      → Sends (m >>= f) Q
  Sends-known m x f h k = Sends-bind m f h λ a sent e.
      subst (λ l. Sends (f a) (λ b later. Q b (l ++ later))) (sym e.1)
        (subst (λ y. Sends (f y) Q) (sym e.0) k)

  -- A step that sends what is known from its result.
  pub Sends-then :
      (m : M (Logged S) A) (f : A → M (Logged S) B) (sends : A → Sent)
      → Sends m (λ a sent. sent ≡ sends a)
      → ((a : A) → Sends (f a) (λ b later. Q b (sends a ++ later)))
      → Sends (m >>= f) Q
  Sends-then m f sends h k =
      Sends-bind m f h
        λ a sent e. subst (λ l. Sends (f a) (λ b later. Q b (l ++ later))) (sym e) (k a)

module _ {S : Type 0} (remote : Remote S) (answers : IsAnswering remote) where
  -- One command is sent, and its success is what is returned.
  abbrev pub Is : String → Bool → Sent → Type 0
  Is cmd b sent = sent ≡ (cmd, b) ∷ []

  pub run-Sends : (cmd : String) → Sends ((logged remote).run cmd) (λ r. Is cmd r.0)
  run-Sends cmd = record {
    run = λ s log.
        let (r, s', e, _) = (answers cmd).run s in (r, s', (cmd, r.0) ∷ [], rw e refl, refl);
  }

  pub exists-Sends : (file : String) → Sends (exists (logged remote) file) (Is ("stat " <> file))
  unfolding exists execute_quietly
  exists-Sends file = Sends-bind _ _ (run-Sends _) λ r sent e. Sends-pure _ (append-nil sent ∙ e)

  pub sudo_execute-Sends :
      (cmd : String) → Sends (sudo_execute (logged remote) cmd) (Is (sudo remote cmd))
  unfolding sudo_execute execute_quietly
  sudo_execute-Sends cmd =
      Sends-bind _ _ (run-Sends _) λ r sent e. Sends-pure _ (append-nil sent ∙ e)

-- A command that is sent only where it is asked for.
pub Sends-when :
    {S : Type 0} (force : Bool) (m : M (Logged S) Bool) (cmd : String)
    → Sends m (λ b sent. sent ≡ (cmd, b) ∷ [])
    → Sends
        (if force then m else pure true)
        (λ b sent. sent ≡ (if force then (cmd, b) ∷ [] else []))
Sends-when true m cmd h = h
Sends-when false m cmd h = Sends-pure true refl
