-- ===== src/Examples/Hosts.antt =====
-- Concrete inputs: a remote host without files.
use text.Mathlib.Text as Text
use jepsen_in_cpp.Prelude.{
  All, ℕ, ◌+◌, ◌==◌, String, ◌<>◌, Bool, true, false, some, none, [], ◌∷◌, ◌++◌, ◌≡◌, ◌⊎◌, refl,
  arith, done, fault,
}
use jepsen_in_cpp.Prelude.Hoare.{done-same}
use jepsen_in_cpp.Base64.Sextets.{letter}
use jepsen_in_cpp.Ssh.Remote.{Remote, sudo}
use jepsen_in_cpp.Control.{StartDaemonOptions, cached_wget, tmp_dir, start_daemon}
use jepsen_in_cpp.Control.Log.{Sent, IsAnswering, logged, Sends}
use jepsen_in_cpp.Control.Install.{cache_file, IsFetched, cached_wget-fetches}
use jepsen_in_cpp.Control.Directory.{logged_rand, checks, name_at, names, IsHost, tmp_dir-fresh}
use jepsen_in_cpp.Control.Daemon.{IsComplete, IsStarted, start_daemon-starts}

-- A host where every file is missing but the first, and which counts the commands.
abbrev host : Remote ℕ
host = record {
  run = λ cmd n. done ((n == 0, "", ""), n + 1);
  password = "pw";
  format = λ text args. elim args [ [] ↦ text | (a ∷ rest) ↦ text <> a ];
}

host-IsAnswering : IsAnswering host
host-IsAnswering cmd = record { run = λ s. ((s == 0, "", ""), s + 1, refl, tt) }

cached_wget-fetches_example :
    Sends
      (cached_wget (logged host) "http://a/b" true)
      (λ file sent. (file ≡ cache_file "http://a/b") × IsFetched host "http://a/b" true sent)
cached_wget-fetches_example =
    cached_wget-fetches host "http://a/b" true host-IsAnswering (omega arith) (omega arith)
      (omega arith)

cache_file_of_url : cache_file "http://a/b" ≡ "/tmp/jepsen/wget-cache/aHR0cDovL2EvYg=="
unfolding letter
cache_file_of_url = refl

-- A host with a single file, which is the first name that is drawn. The state is the seed.
abbrev one_file : String → Bool
one_file dir = Text.◌==◌ ("stat " <> dir) "stat /tmp/jepsen/0"

abbrev keeper : Remote ℕ
keeper = record {
  run = λ cmd n. done ((Text.◌==◌ cmd "stat /tmp/jepsen/0", "", ""), n);
  password = "pw";
  format = λ text args. text;
}

abbrev counter : ℕ → ℕ × ℕ
counter n = (n, n + 1)

keeper-IsAnswering : IsAnswering keeper
keeper-IsAnswering cmd = record { run = λ s. (_, s, refl, tt) }

keeper-IsHost : IsHost keeper counter counter (λ n. n) one_file
keeper-IsHost = record { drawn = λ s. (refl, refl); looks = looks }
  where
    looks :
        (dir : String) (found : Bool) (out err : String) (s s' : ℕ)
        → keeper.run ("stat " <> dir) s ≡ done ((found, out, err), s')
        → (found ≡ one_file dir) × (s' ≡ s)
    looks dir found out err s s' e =
        done-same (λ r n. (r.0 ≡ one_file dir) × (n ≡ s)) ((one_file dir, "", ""), s)
          ((found, out, err), s') e (refl, refl)

tmp_dir-fresh_example :
    (n : ℕ) × (s' : ℕ) × (made : Bool) × All (λ dir. one_file dir ≡ true) (names counter 0 n)
    × (one_file (name_at counter 0 n) ≡ false)
    × (tmp_dir (logged keeper) (logged_rand counter) 2 (0, [])
        ≡ done (
          name_at counter 0 n,
          (
            s',
            []
                ++ checks (names counter 0 n) (name_at counter 0 n)
                ++ (sudo keeper ("mkdir -p " <> name_at counter 0 n), made) ∷ [],
          ),
        ))
tmp_dir-fresh_example =
    tmp_dir-fresh keeper counter counter (λ n. n) one_file 2 1 0 [] keeper-IsAnswering keeper-IsHost
      refl (omega arith)

abbrev etcd : StartDaemonOptions
etcd = record {
  env = some "A=1";
  background = none;
  chdir = some "/opt";
  logfile = some "/log";
  make_pidfile = none;
  match_executable = some false;
  match_process_name = some true;
  pidfile = some "/pid";
  process_name = none;
}

start_daemon-starts_example :
    ((c : IsComplete etcd) × (s' : ℕ) × (sent : Sent) × (start_daemon
          (logged host)
          (λ bin. bin)
          etcd
          "etcd"
          "--v"
          (0, [])
        ≡ done (tt, (s', [] ++ sent)))
      × IsStarted host (λ bin. bin) etcd "etcd" "--v" c sent)
    ⊎ ((¬ IsComplete etcd)
        × (start_daemon (logged host) (λ bin. bin) etcd "etcd" "--v" (0, []) ≡ fault))
start_daemon-starts_example =
    start_daemon-starts host (λ bin. bin) etcd "etcd" "--v" 0 [] host-IsAnswering
