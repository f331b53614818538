-- ===== src/Control/Directory.antt =====
-- The directories that `tmpDir` makes.
use mathlib.Core.List.{append_assoc}
use jepsen_in_cpp.Prelude.{
  ℕ, zero, suc, ◌<◌, String, ◌<>◌, Bool, true, false, List, [], ◌∷◌, ◌++◌, map, ◌≡◌, refl, ◌∙◌, ap,
  subst, done, Outcome, All, sym, ◌>>=◌, >>=-done, pure, lift, arith,
}
use jepsen_in_cpp.Prelude.Text.{decimal}
use jepsen_in_cpp.Ssh.Remote.{Remote, sudo, execute_quietly, sudo_execute}
use jepsen_in_cpp.Control.{temp_dir, exists, unused, tmp_dir}
use jepsen_in_cpp.Control.Log.{Sent, Logged, IsAnswering, logged}

abbrev pub logged_rand : {S : Type 0} → (S → ℕ × S) → Logged S → ℕ × Logged S
logged_rand rand (s, log) = ((rand s).0, ((rand s).1, log))

-- The checks of the names that were taken, and that of the one that was not.
abbrev pub checks : List String → String → Sent
checks tried dir = map (λ d. ("stat " <> d, true)) tried ++ ("stat " <> dir, false) ∷ []

module _ {G : Type 0} (next : G → ℕ × G) where
  -- The name for a draw of the seed, 0 for the first.
  abbrev pub name_at : G → ℕ → String
  name_at g zero = temp_dir <> "/" <> decimal (next g).0
  name_at g (suc n) = name_at (next g).1 n

  -- The names for the first `n` draws.
  abbrev pub names : G → ℕ → List String
  names g zero = []
  names g (suc n) = name_at g 0 ∷ names (next g).1 n

module _ {S G : Type 0} (remote : Remote S) (rand : S → ℕ × S) (next : G → ℕ × G) (seed : S → G)
    (is_there : String → Bool) where
  -- `rand` draws from its seed alone, and commands leave that as it is. `stat` finds the files that
  -- are there, and these stay the same.
  pub record IsHost : Type 0 where
    pub drawn : (s : S) → ((rand s).0 ≡ (next (seed s)).0) × (seed (rand s).1 ≡ (next (seed s)).1)
    pub looks :
        (dir : String) (found : Bool) (out err : String) (s s' : S)
        → remote.run ("stat " <> dir) s ≡ done ((found, out, err), s')
        → (found ≡ is_there dir) × (seed s' ≡ seed s)

  -- The first name that is not there was found: all names before it were tried, and were there.
  abbrev Found : G → Sent → Outcome (String × Logged S) → Type 0
  Found g log outcome =
      (n : ℕ) × (s' : S) × All (λ dir. is_there dir ≡ true) (names next g n)
      × (is_there (name_at next g n) ≡ false)
      × (outcome ≡ done (name_at next g n, (s', log ++ checks (names next g n) (name_at next g n))))

  module _ (answers : IsAnswering remote) (host : IsHost) where
    unused-Found :
        (fuel k : ℕ) (g : G) (s : S) (log : Sent)
        → seed s ≡ (next g).1
        → is_there (name_at next g k) ≡ false
        → k < fuel
        → Found g log (unused (logged remote) (logged_rand rand) fuel (name_at next g 0) (s, log))
    unfolding unused exists execute_quietly ◌>>=◌ pure lift
    unused-Found zero k g s log at free lt = absurd (omega arith)
    unused-Found (suc fuel) k g s log at free lt =
        let ((found, out, err), s₁, e, _) = (answers ("stat " <> name_at next g 0)).run s in
        let (is, kept) = host.looks (name_at next g 0) found out err s s₁ e in
        by_answer (unused-Found fuel) k found out err s₁ e is (kept ∙ at) free lt
      where
        by_answer :
            ((k : ℕ) (g : G) (s : S) (log : Sent)
              → seed s ≡ (next g).1
              → is_there (name_at next g k) ≡ false
              → k < fuel
              → Found g log
                  (unused (logged remote) (logged_rand rand) fuel (name_at next g 0) (s, log)))
            → (k : ℕ) (found : Bool) (out err : String) (s₁ : S)
            → remote.run ("stat " <> name_at next g 0) s ≡ done ((found, out, err), s₁)
            → found ≡ is_there (name_at next g 0)
            → seed s₁ ≡ (next g).1
            → is_there (name_at next g k) ≡ false
            → k < suc fuel
            → Found g log
                (unused (logged remote) (logged_rand rand) (suc fuel) (name_at next g 0) (s, log))
        by_answer ih k false out err s₁ e is at free lt = (0, s₁, tt, sym is, rw e refl)
        by_answer ih zero true out err s₁ e is at free lt = cc (is, free)
        by_answer ih (suc k) true out err s₁ e is at free lt =
            let (draw, left) = host.drawn s₁ in
            let same : (rand s₁).0 ≡ (next (next g).1).0 = draw ∙ ap (λ x. (next x).0) at in
            let log₁ : Sent = log ++ ("stat " <> name_at next g 0, true) ∷ [] in
            let (n, s', there, fresh, ran) =
              ih k (next g).1 (rand s₁).1 log₁ (left ∙ ap (λ x. (next x).1) at) free
                (omega arith) in
            (
              suc n,
              s',
              (sym is, there),
              fresh,
              rw (e, same)
                  (ran
                    ∙ ap (λ l. done (name_at next (next g).1 n, (s', l))) (append_assoc log _ _)),
            )

-- On a remote host where each command returns and files stay where they are, and where one of the names
-- that `rand` draws, before the fuel runs out, is not there: `tmpDir` returns the name of the first
-- draw that is not there. It looks for the names in the order in which they are drawn, each once,
-- makes that directory, and sends nothing else.
pub tmp_dir-fresh :
    {S G : Type 0} (remote : Remote S) (rand : S → ℕ × S) (next : G → ℕ × G) (seed : S → G)
    (is_there : String → Bool) (fuel k : ℕ) (s : S) (log : Sent)
    → IsAnswering remote
    → IsHost remote rand next seed is_there
    → is_there (name_at next (seed s) k) ≡ false
    → k < fuel
    → (n : ℕ) × (s' : S) × (made : Bool) × All (λ dir. is_there dir ≡ true) (names next (seed s) n)
      × (is_there (name_at next (seed s) n) ≡ false)
      × (tmp_dir (logged remote) (logged_rand rand) fuel (s, log)
          ≡ done (
            name_at next (seed s) n,
            (
              s',
              log
                  ++ checks (names next (seed s) n) (name_at next (seed s) n)
                  ++ (sudo remote ("mkdir -p " <> name_at next (seed s) n), made) ∷ [],
            ),
          ))
unfolding tmp_dir sudo_execute execute_quietly ◌>>=◌ pure lift
tmp_dir-fresh {S} remote rand next seed is_there fuel k s log answers host free lt =
    let (drew, left) = host.drawn s in
    let first : temp_dir <> "/" <> decimal (rand s).0 ≡ name_at next (seed s) 0 =
      ap (λ n. temp_dir <> "/" <> decimal n) drew in
    let (n, s₁, there, fresh, ran) =
      unused-Found remote rand next seed is_there answers host fuel k (seed s) (rand s).1 log left
        free lt in
    let dir = name_at next (seed s) n in
    let ((made, out, err), s', e', _) = (answers (sudo remote ("mkdir -p " <> dir))).run s₁ in
    (
      n,
      s',
      made,
      there,
      fresh,
      >>=-done
            (unused (logged remote) (logged_rand rand) fuel (temp_dir <> "/" <> decimal (rand s).0))
            (λ d. sudo_execute (logged remote) ("mkdir -p " <> d) >>= λ m. pure d)
            (subst
              (λ (name : String).
                unused (logged remote) (logged_rand rand) fuel name ((rand s).1, log)
                ≡ done (dir, (s₁, log ++ checks (names next (seed s) n) dir)))
              (sym first) ran)
          ∙ rw e' refl,
    )
