-- ===== src/Control/Install.antt =====
-- The files that `cachedWget` keeps on the remote host, and the directories of `tmpDir`.
use jepsen_in_cpp.Prelude.{
  ◌<◌, ◌-◌, ◌*◌, ◌/◌, ◌^◌, ◌≤◌, String, ◌<>◌, Bool, true, if◌then◌else◌, [], ◌∷◌, ◌++◌, All, length,
  ◌≡◌, refl,
}
use jepsen_in_cpp.Prelude.Text.{bytes, text_of}
use jepsen_in_cpp.Base64.Sextets.{IsByte}
use jepsen_in_cpp.Base64.Roundtrip.{standard, base64_encode-standard}
use jepsen_in_cpp.Ssh.Remote.{Remote, sudo}
use jepsen_in_cpp.Control.{cached_wget, wget_cache_dir}
use jepsen_in_cpp.Control.Log.{
  Sent, Sends-let, Sends-taken, Sends-known, Sends-then, Sends-when, IsAnswering, logged, Sends,
  Sends-pure, Sends-if, exists-Sends, sudo_execute-Sends,
}

-- The standard's base64 code of an ASCII text.
abbrev pub code_of : String → String
code_of url = text_of (standard (bytes url))

abbrev pub cache_file : String → String
cache_file url = wget_cache_dir <> "/" <> code_of url

module _ {S : Type 0} (remote : Remote S) where
  -- The commands of a download: the file is removed first where that is forced, then it is looked
  -- for, and it is fetched where it was not found.
  abbrev pub IsFetched : (url : String) (force : Bool) → Sent → Type 0
  IsFetched url force sent =
      (cleared present made got : Bool) × (sent
        ≡ (if force then (sudo remote ("rm -rf " <> cache_file url), cleared) ∷ [] else [])
          ++ ("stat " <> cache_file url, present)
            ∷ (if present
                then []
                else (sudo remote ("mkdir -p " <> wget_cache_dir), made)
                  ∷ (sudo remote ("wget " <> ("-O " <> cache_file url) <> " " <> url), got)
                  ∷ []))

-- On a remote host where each command returns, the download of a URL of
-- ASCII characters, that is not empty, returns the
-- file that is named by the base64 code of the URL. It removes that file where this is forced, then
-- looks for it, and exactly where it is not found makes the directory and fetches the URL into it.
pub cached_wget-fetches :
    {S : Type 0} (remote : Remote S) (url : String) (force : Bool)
    → IsAnswering remote
    → All IsByte (bytes url)
    → 0 < length (bytes url)
    → length (bytes url) ≤ (2 ^ 64 - 1) / 4 * 3
    → Sends
        (cached_wget (logged remote) url force)
        (λ file sent. (file ≡ cache_file url) × IsFetched remote url force sent)
unfolding cached_wget
cached_wget-fetches {S} remote url force answers ascii some_byte short =
    Sends-known _ (code_of url) _
      (Sends-taken _ _ _ (base64_encode-standard _ ascii some_byte short)
        (Sends-pure _ (refl, refl)))
      (Sends-let _ _ (
        Sends-let _ _ (
          Sends-then _ _
            (λ b. if force then (sudo remote ("rm -rf " <> cache_file url), b) ∷ [] else [])
            (Sends-when force _ _ (sudo_execute-Sends remote answers _))
            λ b.
              Sends-then _ _ (λ p. ("stat " <> cache_file url, p) ∷ [])
                (exists-Sends remote answers _)
                λ p.
                  Sends-if p _ _ (λ e. Sends-pure _ (refl, (b, p, true, true, rw e refl)))
                    (λ e.
                      Sends-then _ _ (λ m. (sudo remote ("mkdir -p " <> wget_cache_dir), m) ∷ [])
                        (sudo_execute-Sends remote answers _)
                        λ m.
                          Sends-then _ _
                            (λ g.
                              (sudo remote ("wget " <> ("-O " <> cache_file url) <> " " <> url), g)
                              ∷ [])
                            (sudo_execute-Sends remote answers _)
                            λ g. Sends-pure _ (refl, (b, p, m, g, rw e refl))))))
