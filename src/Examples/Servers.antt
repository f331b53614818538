-- ===== src/Examples/Servers.antt =====
-- Concrete inputs: ssh servers, one that accepts everything and one that is slow.
use jepsen_in_cpp.Prelude.{
  map, ℕ, zero, suc, inl, inr, ◌+◌, ◌-◌, ◌%◌, ◌==◌, ◌<◌, String, ◌<>◌, Bool, true, some, none, List,
  [], ◌∷◌, ◌++◌, ◌≡◌, ◌⊎◌, refl, if◌then◌else◌, arith, done, exits, M, ◌>>=◌, ◌>>◌, pure, lift,
}
use jepsen_in_cpp.Prelude.Int.{ℤ, pos, negsuc, eqb_ℤ, ltb_ℤ}
use jepsen_in_cpp.Ssh.Library.{
  channel_made, channel_freed, output_read, error_read, Libssh2, Shell, socket_init, eagain,
}
use jepsen_in_cpp.Ssh.Client.{new_client, get_connection, execute, destroy}
use jepsen_in_cpp.Ssh.Output.{concat, execute-streams}
use jepsen_in_cpp.Ssh.Protocol.{Follows, IsAt}
use jepsen_in_cpp.Ssh.Loops.{MakesProgress}
use jepsen_in_cpp.Ssh.Progress.{execute-ends}
use jepsen_in_cpp.Ssh.Sessions.{RefusesNoSocket}
use jepsen_in_cpp.Ssh.Lifetime.{IsUsed, constructed, executed, client-Follows, destroy-frees}

-- The world counts calls, and every other read gives two bytes.
abbrev pub accepting : Libssh2
accepting = record {
  World = ℕ;
  Session = ℕ;
  Channel = ℕ;
  KnownHosts = ℕ;
  socket = λ w. (pos 3, w + 1);
  connect = λ sock h p w. (if eqb_ℤ sock socket_init then negsuc 0 else pos 0, w);
  close_socket = λ sock w. w + 1;
  select = λ sock r wr w. w;
  session_init = λ w. (some w, w + 1);
  set_blocking = λ s w. w;
  handshake = λ s sock w. (pos 0, w);
  block_directions = λ s w. (1, w);
  last_error = λ s w. (pos 0, w);
  session_disconnect = λ s w. w;
  session_free = λ s w. w;
  knownhost_init = λ s w. (some 0, w);
  readfile = λ k w. w;
  writefile = λ k w. w;
  hostkey = λ s w. (some "key", w);
  check = λ k h p f w. (pos 0, w);
  knownhost_free = λ k w. w;
  userauth_password = λ s u p w. (pos 0, w);
  userauth_publickey = λ s u p w. (pos 0, w);
  open_session = λ s w. (some w, w + 1);
  channel_exec = λ c cmd w. (pos 0, w);
  channel_read = λ c w. ((if w % 2 == 1 then (pos 2, "ok") else (pos 0, "")), w + 1);
  channel_read_stderr = λ c w. ((pos 0, ""), w);
  channel_close = λ c w. (pos 0, w);
  exit_status = λ c w. (pos 0, w);
  exit_signal = λ c sig w. (none, w);
  channel_free = λ c w. w;
}

accepting-RefusesNoSocket : RefusesNoSocket accepting
accepting-RefusesNoSocket h p w = λ e. cc e

abbrev shell_of : {A : Type 0} → M (Shell accepting) A → Shell accepting → Shell accepting
shell_of m s = elim (m s) [ done (b, s') ↦ s' | _ ↦ s ]

abbrev made : Shell accepting
unfolding new_client
made = record {
  client = new_client "10.0.0.1" (pos 1) "root" "secret" (pos 22);
  world = 0;
  calls = [];
}

abbrev connected : Shell accepting
unfolding get_connection
connected = shell_of (get_connection accepting 9) made

abbrev listed : Shell accepting
unfolding execute connected
listed = shell_of (execute accepting 9 "ls" "" "") connected

listed-IsUsed : IsUsed accepting 9 listed
unfolding get_connection connected ◌>>=◌ lift ◌>>◌ pure made execute listed
listed-IsUsed =
    executed "ls" "" "" (true, "ok", "")
      (constructed "10.0.0.1" (pos 1) "root" "secret" (pos 22) 0 refl) refl

client-Follows_example : Follows accepting listed.calls listed.client.session none
unfolding listed
client-Follows_example = client-Follows accepting 9 listed accepting-RefusesNoSocket listed-IsUsed

destroy-frees_example :
    (s' : Shell accepting) × (destroy accepting listed ≡ done (tt, s'))
    × IsAt accepting none socket_init none none s'
unfolding listed
destroy-frees_example = destroy-frees accepting 9 listed accepting-RefusesNoSocket listed-IsUsed

execute-streams_example :
    (channel : ℕ) × (outs errs : List String) × (listed.client ≡ connected.client)
    × (listed.calls
        ≡ connected.calls
          ++ (channel_made connected.client.session channel
                ∷ (map (λ u. output_read u) outs ++ map (λ u. error_read u) errs)
              ++ channel_freed channel ∷ []))
    × ("ok" ≡ "" <> concat outs)
    × ("" ≡ "" <> concat errs)
unfolding get_connection connected ◌>>=◌ lift ◌>>◌ pure made execute listed
execute-streams_example =
    execute-streams accepting 9 connected listed "ls" "" "" true "ok" "" refl refl

-- The same server, but the world counts down what it has left: it puts the client off, then it hands
-- out two bytes, then the stream ends.
abbrev slow : Libssh2
slow = record accepting {
  session_init = λ w. (some 0, w);
  open_session = λ s w. (some 0, w);
  channel_read = λ c w.
      ((if w == 0 then (pos 0, "") else if w == 1 then (pos 2, "ok") else (eagain, "")), w - 1);
}

slow-MakesProgress : MakesProgress slow (λ w. w)
slow-MakesProgress = record {
  directions = λ s w. omega arith;
  selects = λ sock r wr w. omega arith;
  opens = λ s w. omega arith;
  explains = λ s w. omega arith;
  puts_off = λ s w e. cc e;
  executes = λ c cmd w. omega arith;
  execution_puts_off = λ c cmd w e. cc e;
  reads = λ c w. omega arith;
  read_advances = advances;
  reads_stderr = λ c w. omega arith;
  stderr_advances = λ c w h. elim h [ inl e ↦ absurd (cc e) | inr e ↦ absurd (cc e) ];
  closes = λ c w. omega arith;
  closing_puts_off = λ c w e. cc e;
}
  where
    advances :
        (c w : ℕ)
        → (ltb_ℤ (pos 0) (slow.channel_read c w).0.0 ≡ true)
          ⊎ (eqb_ℤ (slow.channel_read c w).0.0 eagain ≡ true)
        → w - 1 < w
    advances c zero (inl e) = absurd (cc e)
    advances c zero (inr e) = absurd (cc e)
    advances c (suc w) h = omega arith

abbrev logged_in : Shell slow
unfolding new_client
logged_in = record {
  client = record (new_client "10.0.0.1" (pos 1) "root" "secret" (pos 22)) {
    sock = pos 3;
    session = some 0;
  };
  world = 2;
  calls = [];
}

execute-ends_example :
    ((r : Bool × String × String) × (s : Shell slow) × (execute slow 4 "ls" "" "" logged_in
        ≡ done (r, s)))
    ⊎ ((n : ℤ) × (execute slow 4 "ls" "" "" logged_in ≡ exits n))
unfolding logged_in
execute-ends_example =
    execute-ends slow (λ w. w) 4 "ls" "" "" logged_in slow-MakesProgress refl refl (omega arith)
