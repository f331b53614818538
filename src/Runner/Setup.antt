-- ===== src/Runner/Setup.antt =====
-- src/jepsen/Runner.h and Runner.cpp: the constructor of `Runner` and what a test gives it before `run`.
-- src/jepsen/OS.h, OS.cpp, Database.h and Database.cpp: what holds the remotes, and the `Ubuntu` system.
use text.Mathlib.Text.{◌==◌}
use text.Mathlib.TextEquality.{eq_iff}
use jepsen_in_cpp.Prelude.{
  Bool-cases, inr, subst, ℕ, String, Bool, true, Option, none, some, List, [], ◌∷◌, ◌++◌, map, In,
  All, ◌≡◌, refl, inl, M, ◌>>=◌, pure, done, arith,
}
use jepsen_in_cpp.Prelude.Int.{ℤ}
use jepsen_in_cpp.Prelude.Ensures.{Ensures, Ensures-pure, Ensures-bind}
use jepsen_in_cpp.Generator.Types.{GeneratorPtr, null}
use jepsen_in_cpp.Generator.Factory.{create_validate}
use jepsen_in_cpp.Ssh.Library.{Libssh2}
use jepsen_in_cpp.Ssh.Construction.{SshRemote}
use jepsen_in_cpp.Runner.Remotes.{
  SshInfo, ByNode, find, init_remotes, IsRemoteOf, IsFound, init_remotes-finds,
}

-- `OS`, with its copy of the map of remotes. `none` is a null pointer.
pub record Os (R : Type 0) : Type 0 where
  pub remotes : ByNode (Option R)

-- `DB`.
pub record Db (R : Type 0) : Type 0 where
  pub remotes : ByNode (Option R)
  pub nodes : List String

module _ {R : Type 0} where
  -- The map of a runner as the map of an `OS` or a `DB`: all its pointers are to remotes.
  abbrev pub pointers : ByNode R → ByNode (Option R)
  pointers remotes = map (λ (entry : String × R). (entry.0, some entry.1)) remotes

  -- `OS::initRemotes`.
  abbrev pub os_init_remotes : ByNode R → Os R → Os R
  os_init_remotes remotes os = record os { remotes = pointers remotes }

  -- `DB::initRemotes`.
  abbrev pub db_init_remotes : ByNode R → Db R → Db R
  db_init_remotes remotes db = record db { remotes = pointers remotes }

  -- `remotes[node]`, which adds a null pointer where the node has no entry.
  unfoldable pub at_node : String → ByNode (Option R) → ByNode (Option R) × Option R
  unfolding find
  at_node node remotes = elim (find node remotes) [
    | none ↦ (remotes ++ (node, none) ∷ [], none)
    | some remote ↦ (remotes, remote)
  ]

  -- `Ubuntu::setup`: its result, the remote that it looks up, and the system that it leaves behind.
  unfoldable pub ubuntu_setup : String → Os R → Bool × Option R × Os R
  unfolding at_node
  ubuntu_setup node os =
      let (remotes, remote) = at_node node os.remotes in
      (true, remote, record os { remotes = remotes })

  -- `Ubuntu::teardown`.
  unfoldable pub ubuntu_teardown : String → Os R → Bool × Option R × Os R
  unfolding at_node
  ubuntu_teardown node os =
      let (remotes, remote) = at_node node os.remotes in
      (true, remote, record os { remotes = remotes })

  find-pointers :
      (node : String) (rs : ByNode R) (remote : R)
      → find node rs ≡ some remote
      → find node (pointers rs) ≡ some (some remote)
  unfolding find
  find-pointers node [] remote e = cc
  find-pointers node ((n, a) ∷ rs) remote e = ground (arith, find-pointers node rs remote)

  -- A node with a remote: `setup` and `teardown` find it, and leave the map as it is.
  ubuntu-finds :
      (node : String) (rs : ByNode R) (remote : R) (os : Os R)
      → find node rs ≡ some remote
      → let ready = os_init_remotes rs os in
        (ubuntu_setup node ready ≡ (true, some remote, ready))
        × (ubuntu_teardown node ready ≡ (true, some remote, ready))
  unfolding ubuntu_setup ubuntu_teardown
  ubuntu-finds node rs remote os e = (looked_up, looked_up)
    where
      looked_up :
          (let (remotes, found) = at_node node (pointers rs) in
            ◌≡◌ {A = Bool × Option R × Os R}
              (true, found, record os { remotes = remotes })
              (true, some remote, os_init_remotes rs os))
      looked_up = rw (at_node, find-pointers node rs remote e) refl

-- What holds of all entries of the map holds of the one that is found.
find-All :
    {A : Type 0} (P : String × A → Type 0) (node : String) (rs : ByNode A) (a : A)
    → All P rs
    → find node rs ≡ some a
    → P (node, a)
unfolding find
find-All P node [] a h e = cc
find-All {A} P node ((n, b) ∷ rs) a h e = elim (Bool-cases (n == node)) [
  | inl k ↦ subst P (same ((eq_iff n node).0 k) (some-injective (rw k at e))) h.0
  | inr k ↦ find-All P node rs a h.1 (rw k at e)
]
  where
    same : n ≡ node → b ≡ a → ◌≡◌ {A = String × A} (n, b) (node, a)
    same e k = cc

    some-injective : {x y : A} → ◌≡◌ {A = Option A} (some x) (some y) → x ≡ y
    some-injective e = cc

-- The fields of `Runner` that a test sets. `C` is the type of the checker.
pub record RunnerSetup (S C R : Type 0) : Type 0 where
  pub nodes : List String
  pub concurrency : ℕ
  pub ssh : SshInfo
  pub leave_db_running : Bool
  pub remotes : ByNode R
  pub os : Option (Os R)
  pub db : Option (Db R)
  pub generator : GeneratorPtr S
  pub checker : Option C

module _ {S C R : Type 0} where
  -- `Runner::setOS`. The system is shared, so that the test sees it with the remotes, too.
  abbrev pub set_os : Os R → RunnerSetup S C R → RunnerSetup S C R
  set_os os r = record r { os = some (os_init_remotes r.remotes os) }

  -- `Runner::setDB`.
  abbrev pub set_db : Db R → RunnerSetup S C R → RunnerSetup S C R
  set_db db r = record r { db = some (db_init_remotes r.remotes db) }

  -- `Runner::setGenerator`.
  abbrev pub set_generator : GeneratorPtr S → RunnerSetup S C R → RunnerSetup S C R
  set_generator generator r = record r { generator = create_validate generator }

  -- `Runner::setChecker`.
  abbrev pub set_checker : C → RunnerSetup S C R → RunnerSetup S C R
  set_checker checker r = record r { checker = some checker }

module _ {S C : Type 0} (L : Libssh2) (inet_addr : String → ℤ) (fuel : ℕ) where
  -- The constructor `Runner`, but for the seed of `rand`.
  unfoldable pub new_runner :
      List String → ℕ → SshInfo → Bool → M L.World (RunnerSetup S C (SshRemote L))
  unfolding init_remotes
  new_runner nodes concurrency ssh leave_db_running = do
    remotes ← init_remotes L inet_addr fuel ssh nodes []
    pure (record {
      nodes = nodes;
      concurrency = concurrency;
      ssh = ssh;
      leave_db_running = leave_db_running;
      remotes = remotes;
      os = none;
      db = none;
      generator = null;
      checker = none;
    })

  new_runner-finds :
      (nodes : List String) (concurrency : ℕ) (ssh : SshInfo) (leave_db_running : Bool)
      → Ensures
          (λ r.
            All (IsRemoteOf L inet_addr fuel ssh) r.remotes
            × ((node : String) → In node nodes → IsFound L inet_addr fuel node r.remotes))
          (new_runner nodes concurrency ssh leave_db_running)
  unfolding new_runner
  new_runner-finds nodes concurrency ssh leave_db_running =
      Ensures-bind _ _ (init_remotes-finds L inet_addr fuel ssh nodes [] tt)
        λ rs h. Ensures-pure _ (h.0, λ node i. h.1 node (inl i))

-- After the constructor of a runner returned, an operating system that is set finds a remote for each
-- node of the runner when it is set up and torn down: one that was made for the node, with the login
-- that the runner was given, and that connected or tried to. It leaves its map as it is, so that the
-- threads that set up the nodes in parallel do not write to it.
pub ubuntu-finds_remotes :
    {S C : Type 0} (L : Libssh2) (inet_addr : String → ℤ) (fuel : ℕ) (nodes : List String)
    (concurrency : ℕ) (ssh : SshInfo) (leave_db_running : Bool) (r : RunnerSetup S C (SshRemote L))
    (s s' : L.World) (os : Os (SshRemote L)) (node : String)
    → new_runner L inet_addr fuel nodes concurrency ssh leave_db_running s ≡ done (r, s')
    → In node nodes
    → let ready = os_init_remotes r.remotes os in
      (remote : SshRemote L) × IsRemoteOf L inet_addr fuel ssh (node, remote)
      × (ubuntu_setup node ready ≡ (true, some remote, ready))
      × (ubuntu_teardown node ready ≡ (true, some remote, ready))
ubuntu-finds_remotes L inet_addr fuel nodes concurrency ssh leave_db_running r s s' os node e i =
    let (all, found) =
      (new_runner-finds L inet_addr fuel nodes concurrency ssh leave_db_running).apply s r s' e in
    let (remote, k) = found node i in
    let (up, down) = ubuntu-finds node r.remotes remote os k in
    (remote, find-All (IsRemoteOf L inet_addr fuel ssh) node r.remotes remote all k, up, down)
