-- ===== src/Control.antt =====
-- src/jepsen/Control.h and Control.cpp: the commands that install and start programs on a remote
-- host. `rand`, `boost::split` by newlines and the stem of a `boost::filesystem::path` are parameters.
pub mod Log
pub mod Install
pub mod Directory
pub mod Words
pub mod Daemon
use Prim.Native.Char.{code}
use Prim.Native.String
use text.Mathlib.Text as Text
use jepsen_in_cpp.Prelude.{
  ℕ, zero, suc, ◌==◌, String, ◌<>◌, Bool, true, false, not, ◌&&◌, ◌||◌, if◌then◌else◌, Option, none,
  some, List, [], ◌∷◌, M, out_of_fuel, ◌>>=◌, pure, lift, or_fault,
}
use jepsen_in_cpp.Prelude.Text.{bytes, text_of, decimal}
use jepsen_in_cpp.Base64.{base64_encode}
use jepsen_in_cpp.Ssh.Remote.{Remote, execute_quietly, sudo_execute}

-- `kTempDir` and `kWgetCacheDir`.
abbrev pub temp_dir : String
temp_dir = "/tmp/jepsen"

abbrev pub wget_cache_dir : String
wget_cache_dir = temp_dir <> "/wget-cache"

-- `StartDaemonOptions`.
pub record StartDaemonOptions : Type 0 where
  pub env : Option String
  pub background : Option Bool
  pub chdir : Option String
  pub logfile : Option String
  pub make_pidfile : Option Bool
  pub match_executable : Option Bool
  pub match_process_name : Option Bool
  pub pidfile : Option String
  pub process_name : Option String

-- `std::regex_match(url, std::regex(".*\\.zip$"))`: a dot matches all but the ends of lines.
unfoldable pub is_zip : String → Bool
is_zip String.[] = false
is_zip (String.◌∷◌ c s) =
    Text.◌==◌ (String.◌∷◌ c s) ".zip" || (not (code c == 10 || code c == 13) && is_zip s)

-- `!o.has_value() || o.value()`.
abbrev pub unless_disabled : Option Bool → Bool
unless_disabled none = true
unless_disabled (some b) = b

-- `o.has_value() && o.value()`.
abbrev pub if_enabled : Option Bool → Bool
if_enabled none = false
if_enabled (some b) = b

-- The text of the options that can be left out, up to `--pidfile`.
abbrev pub start_options : (bin bin_name : String) → StartDaemonOptions → String
start_options bin bin_name opts =
    elim (opts.env) [ none ↦ "" | some env ↦ env ]
    <> " start-stop-daemon --start "
    <> (if unless_disabled opts.background then " --background --no-close " else "")
    <> (if unless_disabled opts.make_pidfile then " --make-pidfile" else "")
    <> (if unless_disabled opts.match_executable then " --exec " <> bin <> " " else "")
    <> (if if_enabled opts.match_process_name
        then elim (opts.process_name) [
          | none ↦ " --name " <> bin_name
          | some name ↦ " --name " <> name
        ]
        else "")

-- The line that is written to the log, and the command that starts the daemon.
abbrev pub echo_command :
    (stem : String → String) → StartDaemonOptions → (bin args logfile : String) → String
echo_command stem opts bin args logfile =
    "echo `date +'%Y-%m-%d %H:%M:%S'`"
    <> " Jepsen starting"
    <> elim (opts.env) [ none ↦ "" | some env ↦ " " <> env ]
    <> " "
    <> stem bin
    <> args
    <> " >> "
    <> logfile

abbrev pub start_command :
    (stem : String → String)
    → StartDaemonOptions
    → (bin args logfile pidfile chdir : String) → String
start_command stem opts bin args logfile pidfile chdir =
    start_options bin (stem bin) opts
    <> " --pidfile "
    <> pidfile
    <> " --chdir "
    <> chdir
    <> " --oknodo "
    <> " --startas "
    <> bin
    <> " -- "
    <> args
    <> " >> "
    <> logfile
    <> " 2>&1"

module _ {S : Type 0} (remote : Remote S) where
  unfoldable pub exists : String → M S Bool
  unfolding execute_quietly
  exists filename = execute_quietly remote ("stat " <> filename)

  module _ (rand : S → ℕ × S) where
    -- The name that is tried: `kTempDir + "/" + std::to_string(rand())`.
    abbrev pub draw : M S String
    draw = do n ← lift rand; pure (temp_dir <> "/" <> decimal n)

    -- The loop of `tmpDir`, from a name.
    unfoldable pub unused : ℕ → String → M S String
    unfolding exists
    unused zero dir = λ s. out_of_fuel
    unused (suc fuel) dir = do
      taken ← exists dir
      if taken then (do next ← draw; unused fuel next) else pure dir

    unfoldable pub tmp_dir : ℕ → M S String
    unfolding unused sudo_execute
    tmp_dir fuel = do
      first ← draw
      dir ← unused fuel first
      made ← sudo_execute remote ("mkdir -p " <> dir)
      pure dir

  -- The base64 code of an ASCII URL; the exception for a string that is too large and the assertion
  -- that fails for an empty one are faults.
  abbrev pub encoded : String → M S String
  encoded url = do cs ← or_fault (base64_encode (bytes url)); pure (text_of cs)

  unfoldable pub cached_wget : String → Bool → M S String
  unfolding exists sudo_execute base64_encode
  cached_wget url force = do
    encoded_url ← encoded url
    dest_file ← pure (wget_cache_dir <> "/" <> encoded_url)
    wget_opts ← pure ("-O " <> dest_file)
    cleared ← if force then sudo_execute remote ("rm -rf " <> dest_file) else pure true
    present ← exists dest_file
    if present then pure dest_file else (do
      made ← sudo_execute remote ("mkdir -p " <> wget_cache_dir)
      got ← sudo_execute remote ("wget " <> wget_opts <> " " <> url)
      pure dest_file)

  -- What is moved to the destination: `result[0]` where the listing has one name, or one name and an
  -- empty one after it, and else the directory.
  abbrev pub only_entry : List String → Option String
  only_entry (name ∷ []) = some name
  only_entry (name ∷ rest ∷ []) = if Text.◌==◌ rest "" then some name else none
  only_entry _ = none

  unfoldable pub install_archive :
      (rand : S → ℕ × S) (split : String → List String)
      → ℕ
      → (url dest : String) → (force : Bool) → M S Bool
  unfolding cached_wget tmp_dir sudo_execute is_zip
  install_archive rand split fuel url dest force = do
    file ← cached_wget url force
    dir ← tmp_dir rand fuel
    unpacked ←
        if is_zip url
        then sudo_execute remote ("unzip " <> file)
        else sudo_execute remote
            ("tar --no-same-owner --no-same-permissions --extract --file " <> file <> " -C " <> dir)
    (succeeded, out, err) ← remote.run ("ls -A " <> dir)
    moved ← elim (only_entry (split out)) [
      | some name ↦ sudo_execute remote ("mv " <> (dir <> "/" <> name) <> " " <> dest)
      | none ↦ sudo_execute remote ("mv " <> dir <> " " <> dest)
    ]
    removed ← sudo_execute remote ("rm -rf " <> dir)
    pure true

  -- `startDaemon`. `value()` of an option that is not set is an exception.
  unfoldable pub start_daemon :
      (stem : String → String) → StartDaemonOptions → (bin args : String) → M S (Unit {0})
  unfolding sudo_execute
  start_daemon stem opts bin args = do
    logfile ← or_fault opts.logfile
    echoed ← sudo_execute remote (echo_command stem opts bin args logfile)
    pidfile ← or_fault opts.pidfile
    chdir ← or_fault opts.chdir
    started ← sudo_execute remote (start_command stem opts bin args logfile pidfile chdir)
    pure tt

  unfoldable pub stop_daemon : (cmd pidfile : String) → M S (Unit {0})
  unfolding sudo_execute
  stop_daemon cmd pidfile = do
    killed ← sudo_execute remote ("killall -9 -w " <> cmd)
    removed ← sudo_execute remote ("rm -rf " <> pidfile)
    pure tt
