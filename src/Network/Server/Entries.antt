-- ===== src/Network/Server/Entries.antt =====
-- The loop of `run` in src/TCPServer.cpp over the entries that `poll` reports, and the two tables.
use lumen_engine.Prelude.{
  if_elim, ℕ, zero, suc, ◌+◌, ◌≤◌, ◌<◌, ◌≡◌, refl, sym, ap, ◌∙◌, Bool, true, false, if◌then◌else◌,
  arith, length, get_or, not_positive, ℤ, ◌==ℤ◌, ==ℤ_iff,
}
use lumen_engine.Queue.Interface.{ITaskQueue}
use lumen_engine.Core.Types.{InferenceTask}
use lumen_engine.Network.Session.{ClientSession, new_session}
use lumen_engine.Network.Session
use lumen_engine.Network.Kernel.{Kernel, no_pollfd}
use lumen_engine.Network.Sessions.{put_session, session_at}
use lumen_engine.Network.Server.{
  TcpServer, handle_client_data, handle_writable, close_connection, handle_entry, handle_entries,
  after_send, unsent, recv_room,
}
use lumen_engine.Network.Server.Count.{bit, has_session, put_keeps}
use lumen_engine.Network.Server.Tables.{Tables, listener, entry-has_session, other_entry, same_keys}
use lumen_engine.Network.Server.Steps.{
  FreshAccept, Quiet, Handled, handle_new_connection-Handled, close_connection-Handled,
}

in_range :
    (removed : Bool) (i rounds n n' : ℕ)
    → i + suc rounds ≤ n
    → n ≤ n' + bit removed
    → (if removed then i else i + 1) + rounds ≤ n'
in_range true i rounds n n' a b = omega arith
in_range false i rounds n n' a b = omega arith

module _ {t : ITaskQueue InferenceTask} (kernel : Kernel) where
  -- A step that only replaces the session of an entry.
  replaced :
      (sv sv' : TcpServer t) (fd : ℤ) (v : ClientSession)
      → Tables sv
      → has_session fd sv.sessions ≡ true
      → sv'.pollfds ≡ sv.pollfds
      → sv'.sockfd ≡ sv.sockfd
      → sv'.sessions ≡ put_session fd v sv.sessions
      → Tables sv'
  replaced sv sv' fd v h there l k e =
      same_keys sv sv' h l k (λ key. ap (has_session key) e ∙ put_keeps fd key v sv.sessions there)

  abbrev closed_if : Bool → ℤ → ℕ → TcpServer t → Bool × TcpServer t
  closed_if b fd i sv = if b then (true, close_connection kernel fd i sv) else (false, sv)

  closed_if-Handled :
      (b : Bool) (sv : TcpServer t) (i : ℕ)
      → Tables sv
      → Quiet sv
      → 0 < i
      → i < length sv.pollfds
      → let r = closed_if b (get_or sv.pollfds i no_pollfd).fd i sv in Handled sv r.0 r.1
  closed_if-Handled true sv i h quiet some_i inside =
      close_connection-Handled kernel sv i h quiet some_i inside
  closed_if-Handled false sv i h quiet some_i inside = record {
    tables = h;
    quiet = quiet;
    room = omega arith;
  }

  later :
      (sv : TcpServer t) (i : ℕ)
      → Tables sv
      → ((get_or sv.pollfds i no_pollfd).fd ==ℤ sv.sockfd) ≡ false
      → 0 < i
  later sv zero h other =
      absurd (
        omega
          (arith, ap bit (sym ((==ℤ_iff (listener sv.pollfds).fd sv.sockfd).1 h.first) ∙ other)))
  later sv (suc i) h other = omega arith

  client_entry :
      (sv : TcpServer t) (i : ℕ)
      → Tables sv
      → Quiet sv
      → i < length sv.pollfds
      → ((get_or sv.pollfds i no_pollfd).fd ==ℤ sv.sockfd) ≡ false
      → let fd = (get_or sv.pollfds i no_pollfd).fd in
        let r = handle_client_data kernel fd sv in
        let e = closed_if (not_positive r.0) fd i r.1 in Handled sv e.0 e.1
  unfolding handle_client_data
  client_entry sv i h quiet inside other =
      let fd = (get_or sv.pollfds i no_pollfd).fd in
      let r = handle_client_data kernel fd sv in
      let v =
        (Session.handle_client_data
          (kernel.recv sv.calls fd (
            recv_room (session_at kernel sv.calls fd sv.sessions)
              (session_at kernel sv.calls fd sv.sessions).state))
          (kernel.now sv.calls) fd (session_at kernel sv.calls fd sv.sessions) sv.intake).1 in
      let h' : Tables r.1 =
        replaced sv r.1 fd v h (entry-has_session sv i h inside other) refl refl refl in
      let d = closed_if-Handled (not_positive r.0) r.1 i h' quiet (later sv i h other) inside in
      record { tables = d.tables; quiet = d.quiet; room = d.room }

  writable_entry :
      (sv : TcpServer t) (i : ℕ)
      → Tables sv
      → Quiet sv
      → 0 < i
      → i < length sv.pollfds
      → let fd = (get_or sv.pollfds i no_pollfd).fd in
        let r = handle_writable kernel fd sv in let e = closed_if r.0 fd i r.1 in Handled sv e.0 e.1
  unfolding handle_writable
  writable_entry sv i h quiet some_i inside =
      let fd = (get_or sv.pollfds i no_pollfd).fd in
      let s = session_at kernel sv.calls fd sv.sessions in
      let r = handle_writable kernel fd sv in
      let h' : Tables r.1 =
        replaced sv r.1 fd (after_send (kernel.send sv.calls fd (unsent s)) s).0 h
          (entry-has_session sv i h inside (other_entry sv i h some_i inside)) refl refl refl in
      let d = closed_if-Handled r.0 r.1 i h' quiet some_i inside in
      record { tables = d.tables; quiet = d.quiet; room = d.room }

  not_first :
      (sv : TcpServer t) (i : ℕ)
      → Quiet sv
      → (get_or sv.pollfds i no_pollfd).revents.writable ≡ true
      → 0 < i
  not_first sv zero quiet e = absurd (omega (arith, ap bit (sym e ∙ quiet)))
  not_first sv (suc i) quiet e = omega arith

  handle_entry-Handled :
      (i : ℕ) (sv : TcpServer t)
      → FreshAccept kernel
      → Tables sv
      → Quiet sv
      → i < length sv.pollfds
      → let r = handle_entry kernel i sv in Handled sv r.0 r.1
  unfolding handle_entry
  handle_entry-Handled i sv fresh h quiet inside =
      let p = get_or sv.pollfds i no_pollfd in
      if_elim (λ (r : Bool × TcpServer t). Handled sv r.0 r.1) p.revents.readable
        (λ _.
          if_elim (λ (r : Bool × TcpServer t). Handled sv r.0 r.1) (p.fd ==ℤ sv.sockfd)
            (λ _. handle_new_connection-Handled kernel sv fresh h quiet)
            (λ other. client_entry sv i h quiet inside other))
        (λ _.
          if_elim (λ (r : Bool × TcpServer t). Handled sv r.0 r.1) p.revents.writable
            (λ e. writable_entry sv i h quiet (not_first sv i quiet e) inside)
            (λ _. record { tables = h; quiet = quiet; room = omega arith }))

  -- The loop never leaves the list, though entries go and come while it runs.
  pub handle_entries-Tables :
      (rounds i : ℕ) (sv : TcpServer t)
      → FreshAccept kernel
      → Tables sv
      → Quiet sv
      → i + rounds ≤ length sv.pollfds
      → Tables (handle_entries kernel rounds i sv)
  unfolding handle_entries
  handle_entries-Tables zero i sv fresh h quiet inside = h
  handle_entries-Tables (suc rounds) i sv fresh h quiet inside =
      let r = handle_entry kernel i sv in
      let d = handle_entry-Handled i sv fresh h quiet (omega arith) in
      handle_entries-Tables rounds (if r.0 then i else i + 1) r.1 fresh d.tables d.quiet
        (in_range r.0 i rounds (length sv.pollfds) (length r.1.pollfds) inside d.room)
