-- ===== src/Control/Daemon.antt =====
-- When `startDaemon` throws, and what it sends where it does not.
use mathlib.Core.List.{append-nil}
use text.Mathlib.TextLemmas as Text
use jepsen_in_cpp.Prelude.{
  List, Option, none, true, false, if◌then◌else◌, ◌<>◌, subst, String, Bool, some, Option-cases,
  ◌⊎◌, inl, inr, [], ◌∷◌, ◌++◌, ◌≡◌, refl, ◌∙◌, M, done, fault, ◌>>=◌, >>=-done, pure, or_fault,
}
use jepsen_in_cpp.Ssh.Remote.{Remote, sudo, sudo_execute}
use jepsen_in_cpp.Control.{
  StartDaemonOptions, start_daemon, echo_command, start_command, start_options, unless_disabled,
  if_enabled,
}
use jepsen_in_cpp.Control.Words.{
  words, Opens, words-append, words-before, Opens-append, Opens-join, Opens-space, Opens-before,
  Opens-option,
}
use jepsen_in_cpp.Control.Log.{
  Sent, Logged, IsAnswering, logged, Sends, Sends-pure, Sends-then, Sends-taken, sudo_execute-Sends,
}

-- The options that must be set.
pub record IsComplete (opts : StartDaemonOptions) : Type 0 where
  pub logfile : String
  pub pidfile : String
  pub chdir : String
  pub has_logfile : opts.logfile ≡ some logfile
  pub has_pidfile : opts.pidfile ≡ some pidfile
  pub has_chdir : opts.chdir ≡ some chdir

complete? : (opts : StartDaemonOptions) → IsComplete opts ⊎ (¬ IsComplete opts)
complete? opts = elim (Option-cases opts.logfile) [
  | inl e ↦ inr (λ c. cc (e, c.has_logfile))
  | inr (logfile, e) ↦ elim (Option-cases opts.pidfile) [
    | inl k ↦ inr (λ c. cc (k, c.has_pidfile))
    | inr (pidfile, k) ↦ elim (Option-cases opts.chdir) [
      | inl l ↦ inr (λ c. cc (l, c.has_chdir))
      | inr (chdir, l) ↦ inl (record {
        logfile = logfile;
        pidfile = pidfile;
        chdir = chdir;
        has_logfile = e;
        has_pidfile = k;
        has_chdir = l;
      })
    ]
  ]
]

-- The words, unless the option is set to false.
abbrev pub unless_no : Option Bool → List String → List String
unless_no (some false) ws = []
unless_no _ ws = ws

-- The words, if the option is set to true.
abbrev pub if_yes : Option Bool → List String → List String
if_yes (some true) ws = ws
if_yes _ ws = []

abbrev pub option_words : Option String → List String
option_words none = []
option_words (some text) = words text

-- The words of the line for the log. The arguments follow the name of the program without a space.
abbrev pub line_words : (name : String) → StartDaemonOptions → (args logfile : String) → List String
line_words name opts args logfile =
    "echo"
    ∷ "`date"
    ∷ "+'%Y-%m-%d"
    ∷ "%H:%M:%S'`"
    ∷ "Jepsen"
    ∷ "starting"
    ∷ (option_words opts.env ++ (words (name <> args) ++ ">>" ∷ words logfile))

-- The words of the start, as start-stop-daemon takes its options.
abbrev pub start_words :
    (name : String) → StartDaemonOptions → (bin args logfile pidfile chdir : String) → List String
start_words name opts bin args logfile pidfile chdir =
    (option_words opts.env
      ++ "start-stop-daemon"
        ∷ "--start"
        ∷ (unless_no opts.background ("--background" ∷ "--no-close" ∷ [])
            ++ (unless_no opts.make_pidfile ("--make-pidfile" ∷ [])
                ++ (unless_no opts.match_executable ("--exec" ∷ words bin)
                    ++ if_yes opts.match_process_name (
                        "--name" ∷ elim opts.process_name [
                          | none ↦ words name
                          | some other ↦ words other
                        ])))))
    ++ "--pidfile"
      ∷ (words pidfile
          ++ "--chdir"
            ∷ (words chdir
                ++ "--oknodo"
                  ∷ "--startas"
                  ∷ (words bin ++ "--" ∷ (words args ++ ">>" ∷ (words logfile ++ "2>&1" ∷ [])))))

Opens-unless :
    (o : Option Bool) (t : String) (ws : List String)
    → Opens t ws
    → Opens (if unless_disabled o then t else "") (unless_no o ws)
Opens-unless none t ws h = h
Opens-unless (some true) t ws h = h
Opens-unless (some false) t ws h = record { cut_at = refl }

Opens-name :
    (o : Option Bool) (process_name : Option String) (name : String)
    → Opens
        (if if_enabled o
          then elim process_name [ none ↦ " --name " <> name | some other ↦ " --name " <> other ]
          else "")
        (if_yes o ("--name" ∷ elim process_name [ none ↦ words name | some other ↦ words other ]))
Opens-name none process_name name = record { cut_at = refl }
Opens-name (some false) process_name name = record { cut_at = refl }
Opens-name (some true) none name = Opens-before " --name" name _ (record { cut_at = refl })
Opens-name (some true) (some other) name = Opens-before " --name" other _ (record { cut_at = refl })

option-words : (o : Option String) → words (elim o [ none ↦ "" | some env ↦ env ]) ≡ option_words o
option-words none = refl
option-words (some env) = refl

Opens-env :
    (o : Option String) → Opens (elim o [ none ↦ "" | some env ↦ " " <> env ]) (option_words o)
Opens-env none = record { cut_at = refl }
Opens-env (some env) = Opens-space env

Opens-exec : (bin : String) → Opens (" --exec " <> bin <> " ") ("--exec" ∷ words bin)
Opens-exec bin =
    subst (λ l. Opens (" --exec " <> bin <> " ") ("--exec" ∷ l)) (append-nil (words bin))
      (Opens-option " --exec" bin " " _ [] (record { cut_at = refl }) (record { cut_at = refl }))

Opens-start : Opens " start-stop-daemon --start " ("start-stop-daemon" ∷ "--start" ∷ [])
Opens-start = record { cut_at = refl }

Opens-background :
    (o : Option Bool)
    → Opens
        (if unless_disabled o then " --background --no-close " else "")
        (unless_no o ("--background" ∷ "--no-close" ∷ []))
Opens-background o =
    Opens-unless o " --background --no-close " ("--background" ∷ "--no-close" ∷ [])
      (record { cut_at = refl })

Opens-make_pidfile :
    (o : Option Bool)
    → Opens
        (if unless_disabled o then " --make-pidfile" else "")
        (unless_no o ("--make-pidfile" ∷ []))
Opens-make_pidfile o =
    Opens-unless o " --make-pidfile" ("--make-pidfile" ∷ []) (record { cut_at = refl })

Opens-match_executable :
    (o : Option Bool) (bin : String)
    → Opens
        (if unless_disabled o then " --exec " <> bin <> " " else "")
        (unless_no o ("--exec" ∷ words bin))
Opens-match_executable o bin =
    Opens-unless o (" --exec " <> bin <> " ") ("--exec" ∷ words bin) (Opens-exec bin)

start_options-words :
    (bin name : String) (opts : StartDaemonOptions)
    → words (start_options bin name opts)
      ≡ option_words opts.env
        ++ "start-stop-daemon"
          ∷ "--start"
          ∷ (unless_no opts.background ("--background" ∷ "--no-close" ∷ [])
              ++ (unless_no opts.make_pidfile ("--make-pidfile" ∷ [])
                  ++ (unless_no opts.match_executable ("--exec" ∷ words bin)
                      ++ if_yes opts.match_process_name (
                          "--name" ∷ elim opts.process_name [
                            | none ↦ words name
                            | some other ↦ words other
                          ]))))
start_options-words bin name opts =
    let named = Opens-name opts.match_process_name opts.process_name name in
    let matched = Opens-join (Opens-match_executable opts.match_executable bin) named in
    let made = Opens-join (Opens-make_pidfile opts.make_pidfile) matched in
    let settled = Opens-join Opens-start (Opens-join (Opens-background opts.background) made) in
    words-before (elim opts.env [ none ↦ "" | some env ↦ env ]) (option-words opts.env) settled

start_command-words :
    (stem : String → String) (opts : StartDaemonOptions) (bin args logfile pidfile chdir : String)
    → words (start_command stem opts bin args logfile pidfile chdir)
      ≡ start_words (stem bin) opts bin args logfile pidfile chdir
start_command-words stem opts bin args logfile pidfile chdir =
    words-before (start_options bin (stem bin) opts) (start_options-words bin (stem bin) opts) (
      Opens-option " --pidfile" pidfile _ _ _ (record { cut_at = refl })
        (Opens-option " --chdir" chdir _ _ _ (record { cut_at = refl })
          (Opens-append " --oknodo " _ _ _ (record { cut_at = refl })
            (Opens-option " --startas" bin _ _ _ (record { cut_at = refl })
              (Opens-option " --" args _ _ _ (record { cut_at = refl })
                (Opens-option " >>" logfile " 2>&1" _ _ (record { cut_at = refl })
                  (record { cut_at = refl })))))))

echo_command-words :
    (stem : String → String) (opts : StartDaemonOptions) (bin args logfile : String)
    → words (echo_command stem opts bin args logfile) ≡ line_words (stem bin) opts args logfile
echo_command-words stem opts bin args logfile =
    words-append "echo `date +'%Y-%m-%d %H:%M:%S'`" _ _ (
      Opens-append " Jepsen starting" _ _ _ (record { cut_at = refl })
        (Opens-append _ _ _ _ (Opens-env opts.env) (
          subst (λ t. Opens (" " <> t) (words (stem bin <> args) ++ ">>" ∷ words logfile))
            (Text.append_assoc (stem bin) args (" >> " <> logfile))
            (subst (λ l. Opens (" " <> ((stem bin <> args) <> (" >> " <> logfile))) l)
              (words-append (stem bin <> args) _ _
                (Opens-before " >>" logfile _ (record { cut_at = refl })))
              (Opens-space ((stem bin <> args) <> (" >> " <> logfile)))))))

module _ {S : Type 0} (remote : Remote S) (stem : String → String) (opts : StartDaemonOptions)
    (bin args : String) where
  -- The line for the log, and then the start, are all that is sent.
  abbrev pub IsStarted : IsComplete opts → Sent → Type 0
  IsStarted c sent =
      (line command : String) × (echoed started : Bool) × (sent
        ≡ (sudo remote line, echoed) ∷ (sudo remote command, started) ∷ [])
      × (words line ≡ line_words (stem bin) opts args c.logfile)
      × (words command ≡ start_words (stem bin) opts bin args c.logfile c.pidfile c.chdir)

  module _ (answers : IsAnswering remote) where
    starts :
        (c : IsComplete opts)
        → Sends (start_daemon (logged remote) stem opts bin args) (λ _. IsStarted c)
    unfolding start_daemon
    starts c = Sends-taken _ _ _ c.has_logfile (
        Sends-then _ _ (λ b. (sudo remote (echo_command stem opts bin args c.logfile), b) ∷ [])
          (sudo_execute-Sends remote answers _)
          λ echoed. Sends-taken _ _ _ c.has_pidfile (
            Sends-taken _ _ _ c.has_chdir (
              Sends-then _ _
                (λ b.
                  (sudo remote (start_command stem opts bin args c.logfile c.pidfile c.chdir), b)
                  ∷ [])
                (sudo_execute-Sends remote answers _)
                λ started. Sends-pure _ (
                  echo_command stem opts bin args c.logfile,
                  start_command stem opts bin args c.logfile c.pidfile c.chdir,
                  echoed,
                  started,
                  refl,
                  echo_command-words stem opts bin args c.logfile,
                  start_command-words stem opts bin args c.logfile c.pidfile c.chdir,
                ))))

    -- What is left of it after the first command.
    abbrev rest : String → M (Logged S) (Unit {0})
    rest logfile = do
      pidfile ← or_fault opts.pidfile
      chdir ← or_fault opts.chdir
      started ←
          sudo_execute (logged remote) (start_command stem opts bin args logfile pidfile chdir)
      pure tt

    unset :
        (t : Logged S) (logfile : String)
        → opts.logfile ≡ some logfile
        → ¬ IsComplete opts
        → rest logfile t ≡ fault
    unfolding or_fault ◌>>=◌
    unset t logfile e missing = elim (Option-cases opts.pidfile) [
      | inl k ↦ rw k refl
      | inr (pidfile, k) ↦ elim (Option-cases opts.chdir) [
        | inl l ↦ rw (k, l) refl
        | inr (chdir, l) ↦
            elim (missing (record {
              logfile = logfile;
              pidfile = pidfile;
              chdir = chdir;
              has_logfile = e;
              has_pidfile = k;
              has_chdir = l;
            })) [ ]
      ]
    ]

    throws :
        (s : S) (log : Sent)
        → ¬ IsComplete opts
        → start_daemon (logged remote) stem opts bin args (s, log) ≡ fault
    unfolding start_daemon or_fault ◌>>=◌
    throws s log missing = elim (Option-cases opts.logfile) [
      | inl e ↦ rw e refl
      | inr (logfile, e) ↦
          let echo = echo_command stem opts bin args logfile in
          let (b, s₁, sent, e₁, _) = (sudo_execute-Sends remote answers echo).run s log in
          rw e (
            >>=-done (sudo_execute (logged remote) echo) (λ b. rest logfile) e₁
            ∙ unset (s₁, log ++ sent) logfile e missing)
    ]

-- On a remote host where each command returns, `startDaemon` either has a log file, a pid file and a
-- directory among its options, and then it returns and sends two commands, whatever comes of the first:
-- a line for the log, and the start, whose words, parted at spaces, are those that start-stop-daemon
-- takes for the options; or one of the three is not set, and then it throws.
pub start_daemon-starts :
    {S : Type 0} (remote : Remote S) (stem : String → String) (opts : StartDaemonOptions)
    (bin args : String) (s : S) (log : Sent)
    → IsAnswering remote
    → ((c : IsComplete opts) × (s' : S) × (sent : Sent) × (start_daemon
            (logged remote)
            stem
            opts
            bin
            args
            (s, log)
          ≡ done (tt, (s', log ++ sent)))
        × IsStarted remote stem opts bin args c sent)
      ⊎ ((¬ IsComplete opts) × (start_daemon (logged remote) stem opts bin args (s, log) ≡ fault))
start_daemon-starts remote stem opts bin args s log answers = elim (complete? opts) [
  | inl c ↦
      let (_, s', sent, e, h) = (starts remote stem opts bin args answers c).run s log in
      inl (c, s', sent, e, h)
  | inr missing ↦ inr (missing, throws remote stem opts bin args answers s log missing)
]
