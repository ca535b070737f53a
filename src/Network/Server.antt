-- ===== src/Network/Server.antt =====
-- The event loop of src/TCPServer.cpp: connections, answers and one round of `run`.
pub mod Send
pub mod Respond
pub mod Count
pub mod Tables
pub mod Steps
pub mod Entries
pub mod Polled
pub mod Round
use lumen_engine.Prelude.{
  ℕ, zero, suc, ◌+◌, ◌-◌, ◌≡◌, ◌⊎◌, Bool, true, false, not, ◌&&◌, Option, none, some, List, [], ◌∷◌,
  ◌++◌, if◌then◌else◌, ◌==◌, length, drop, get_or, set, add_size, sub_size, ℤ, pos, minus_one,
  not_positive, ◌==ℤ◌,
}
use lumen_engine.Queue.Interface.{ITaskQueue}
use lumen_engine.Queue.Result.{NaiveResultQueue, pop_immediate}
use lumen_engine.Core.Types.{InferenceTask, InferenceTrace, InferenceResult, get_elapsed_ms}
use lumen_engine.Network.Session.{
  State, header_pending, body_pending, ready_for_inference, inference_pending, response_sending,
  ClientSession, new_session, reset, Recv, Intake, header_room, body_room,
}
use lumen_engine.Network.Session
use lumen_engine.Network.Kernel.{
  Events, poll_in, poll_out, poll_none, Revents, Pollfd, Sent, sent, would_block, failed, Kernel,
  no_pollfd, remove_pollfd, open_fds, with_revents,
}
use lumen_engine.Network.Sessions.{Sessions, find_session, put_session, erase_session, session_at}

module _ (t : ITaskQueue InferenceTask) where
  pub record TcpServer : Type 0 where
    pub sockfd : ℤ
    pub pollfds : List Pollfd
    pub sessions : Sessions
    pub intake : Intake t
    pub response_queue : NaiveResultQueue InferenceResult
    pub captured : List InferenceTrace  -- given to `TelemetryManager::capture_trace`, oldest first
    pub closed : List ℤ  -- given to `close`, oldest first
    pub calls : ℕ  -- system calls made

abbrev pub recv_room : ClientSession → State → ℕ
recv_room s header_pending = header_room s
recv_room s body_pending = body_room s
recv_room s _ = 0

abbrev pub captured_trace :
    (now : ℕ) → Option InferenceTrace → List InferenceTrace → List InferenceTrace
captured_trace now none traces = traces
captured_trace now (some trace) traces =
    traces ++ (record trace { total_e2e_ms = get_elapsed_ms now trace } ∷ [])

abbrev pub events_of : State → Events
events_of response_sending = poll_out
events_of inference_pending = poll_none
events_of _ = poll_in

-- The `for` that sets `events`, from the second entry on.
unfoldable pub set_events : Kernel → ℕ → List Pollfd → Sessions → List Pollfd × Sessions
set_events kernel n [] sessions = ([], sessions)
set_events kernel n (p ∷ rest) sessions =
    let s = session_at kernel n p.fd sessions in
    let r = set_events kernel n rest (put_session p.fd s sessions) in
    (record p { events = events_of s.state } ∷ r.0, r.1)

abbrev pub polled_events : Kernel → List Pollfd → ℕ → Sessions → List Pollfd × Sessions
polled_events kernel [] n sessions = ([], sessions)
polled_events kernel (listener ∷ rest) n sessions =
    let r = set_events kernel n rest sessions in (listener ∷ r.0, r.1)

-- What is offered to `send`.
abbrev pub unsent : ClientSession → List ℕ
unsent s = drop s.bytes_sent s.response_buffer

-- The answer of `send` in the POLLOUT branch: the session, and whether the connection is closed.
unfoldable pub after_send : Sent → ClientSession → ClientSession × Bool
after_send (sent zero) s = (s, false)
after_send (sent (suc n)) s =
    let s' : ClientSession = record s { bytes_sent = add_size s.bytes_sent (suc n) } in
    (if s'.bytes_sent == length s'.response_buffer then reset s' else s', false)
after_send would_block s = (s, false)
after_send failed s = (s, true)

module _ {t : ITaskQueue InferenceTask} (kernel : Kernel) where
  unfoldable pub handle_new_connection : TcpServer t → TcpServer t
  handle_new_connection sv =
      let new_fd = kernel.accept sv.calls (open_fds sv.pollfds) in
      let sv' : TcpServer t = record sv { calls = sv.calls + 1 } in
      if new_fd ==ℤ minus_one then sv' else (record sv' {
        pollfds =
            sv.pollfds
            ++ (record { fd = new_fd; events = poll_in; revents = kernel.garbage_revents sv.calls }
                ∷ []);
        sessions = put_session new_fd (new_session (kernel.garbage_header sv.calls)) sv.sessions;
      })

  unfoldable pub handle_client_data : ℤ → TcpServer t → ℤ × TcpServer t
  handle_client_data fd sv =
      let s = session_at kernel sv.calls fd sv.sessions in
      let r =
        Session.handle_client_data (kernel.recv sv.calls fd (recv_room s s.state))
          (kernel.now sv.calls) fd s sv.intake in
      (
        r.0,
        record sv { sessions = put_session fd r.1 sv.sessions; intake = r.2; calls = sv.calls + 1 },
      )

  unfoldable pub close_connection : ℤ → ℕ → TcpServer t → TcpServer t
  close_connection fd i sv = record sv {
    closed = sv.closed ++ ((get_or sv.pollfds i no_pollfd).fd ∷ []);
    pollfds = remove_pollfd sv.pollfds i;
    sessions = erase_session fd sv.sessions;
  }

  -- One answer: it goes to the session of its descriptor, if there is one, and its trace to the
  -- telemetry.
  unfoldable pub respond : InferenceResult → TcpServer t → TcpServer t
  respond res sv = elim (find_session res.client_fd sv.sessions) [
    | none ↦ record sv { calls = sv.calls + 1 }
    | some s ↦ record sv {
      sessions =
          put_session res.client_fd
            (record s { response_buffer = res.response; state = response_sending; bytes_sent = 0 })
            sv.sessions;
      captured = captured_trace (kernel.now sv.calls) res.trace sv.captured;
      calls = sv.calls + 1;
    }
  ]

  -- `while (auto res_opt = response_queue->pop_immediate())`, with fuel. What workers push
  -- meanwhile is there for a later call.
  unfoldable pub handle_responses : ℕ → TcpServer t → TcpServer t
  handle_responses zero sv = sv
  handle_responses (suc fuel) sv =
      let r = pop_immediate sv.response_queue in
      elim r.0 [
        | none ↦ record sv { response_queue = r.1 }
        | some res ↦ handle_responses fuel (respond res (record sv { response_queue = r.1 }))
      ]

  unfoldable pub handle_writable : ℤ → TcpServer t → Bool × TcpServer t
  unfolding after_send
  handle_writable fd sv =
      let s = session_at kernel sv.calls fd sv.sessions in
      let r = after_send (kernel.send sv.calls fd (unsent s)) s in
      (r.1, record sv { sessions = put_session fd r.0 sv.sessions; calls = sv.calls + 1 })

  -- The body of the second `for`, at index `i`; true if the entry was removed.
  unfoldable pub handle_entry : ℕ → TcpServer t → Bool × TcpServer t
  handle_entry i sv =
      let p = get_or sv.pollfds i no_pollfd in
      if p.revents.readable
      then if p.fd ==ℤ sv.sockfd
        then (false, handle_new_connection sv)
        else (let r = handle_client_data p.fd sv in
            if not_positive r.0 then (true, close_connection p.fd i r.1) else (false, r.1))
      else if p.revents.writable
      then (let r = handle_writable p.fd sv in
          if r.0 then (true, close_connection p.fd i r.1) else (false, r.1))
      else (false, sv)

  -- `rounds` is `current_size - i`: removing an entry lowers `current_size` and stays at `i`.
  unfoldable pub handle_entries : (rounds i : ℕ) → TcpServer t → TcpServer t
  handle_entries zero i sv = sv
  handle_entries (suc rounds) i sv =
      let r = handle_entry i sv in handle_entries rounds (if r.0 then i else i + 1) r.1

  -- One round of the loop in `run`.
  unfoldable pub round : TcpServer t → TcpServer t
  round sv =
      let sv₁ = handle_responses (suc (length sv.response_queue.items)) sv in
      let e = polled_events kernel sv₁.pollfds sv₁.calls sv₁.sessions in
      let answer = kernel.poll sv₁.calls e.0 in
      let sv₂ : TcpServer t = record sv₁ {
        pollfds = with_revents e.0 answer.1;
        sessions = e.1;
        calls = sv₁.calls + 1;
      } in
      if not_positive answer.0 then sv₂ else handle_entries (length sv₂.pollfds) 0 sv₂

  -- `run`, for as many rounds as `g_running` is true.
  unfoldable pub run : ℕ → TcpServer t → TcpServer t
  run zero sv = sv
  run (suc rounds) sv = run rounds (round sv)

-- The end of the constructor, with the socket that it bound and listens on.
unfoldable pub new_server :
    {t : ITaskQueue InferenceTask}
    → ℤ
    → Revents
    → Intake t
    → NaiveResultQueue InferenceResult
    → TcpServer t
new_server sockfd garbage intake response_queue = record {
  sockfd = sockfd;
  pollfds = record { fd = sockfd; events = poll_in; revents = garbage } ∷ [];
  sessions = [];
  intake = intake;
  response_queue = response_queue;
  captured = [];
  closed = [];
  calls = 0;
}
