-- ===== src/Network/Tests.antt =====
-- Runs of the server on concrete streams, answers and a concrete kernel.
use lumen_engine.Prelude.{
  ℕ, suc, ◌+◌, ◌≡◌, refl, true, false, none, List, [], ◌∷◌, arith, length, ℤ, pos, negsuc,
}
use lumen_engine.Queue.Interface.{ITaskQueue}
use lumen_engine.Queue.Spsc.{spsc_task_queue, new_queue}
use lumen_engine.Queue.Result.{NaiveResultQueue}
use lumen_engine.Core.Types.{InferenceTask, InferenceResult, new_result, task_movable}
use lumen_engine.Network.Session.{
  Intake, ClientSession, response_sending, new_session, received, handle_client_data,
  process_header, process_body, receive_body,
}
use lumen_engine.Network.Kernel.{Kernel, Pollfd, Revents, Sent, sent, would_block}
use lumen_engine.Network.Sessions.{find_session}
use lumen_engine.Network.Buffers.{HeaderSoFar, AllBytes}
use lumen_engine.Network.Server.Tables.{Tables}
use lumen_engine.Network.Feed.{Accepted, Fits}
use lumen_engine.Network.Framing.{feed_lem}
use lumen_engine.Network.Server.{new_server, handle_responses, TcpServer}
use lumen_engine.Network.Server.Send.{send_all_lem, send_all, wire, stays_open}
use lumen_engine.Network.Server.Respond.{handle_responses_lem, answered}

abbrev queue : ITaskQueue InferenceTask
queue = spsc_task_queue InferenceTask

abbrev intake : Intake queue
intake = record { task_queue = new_queue; trace_id_gen = 9; pre = none; post = none }

-- A body of three bytes, in three pieces that cut the header and the body.
abbrev pieces : List (ℕ × List ℕ)
pieces = (10, 0 ∷ 0 ∷ 0 ∷ []) ∷ (11, 3 ∷ []) ∷ (12, 70 ∷ []) ∷ (13, 71 ∷ 72 ∷ []) ∷ []

abbrev zeros : List ℕ
zeros = 0 ∷ 0 ∷ 0 ∷ 0 ∷ []

header_bytes : AllBytes (0 ∷ 0 ∷ 0 ∷ 3 ∷ [])
header_bytes = (omega arith, (omega arith, (omega arith, (omega arith, tt))))

pieces-Fits : Fits pieces (pos 5) (new_session zeros) intake
unfolding handle_client_data new_session process_header process_body receive_body
pieces-Fits = (
  omega arith,
  omega arith,
  (omega arith, omega arith, (omega arith, omega arith, (omega arith, omega arith, tt))),
)

feed_lem_example : Accepted pieces (pos 5) (new_session zeros) intake (70 ∷ 71 ∷ 72 ∷ [])
feed_lem_example =
    feed_lem pieces (0 ∷ 0 ∷ 0 ∷ 3 ∷ []) (70 ∷ 71 ∷ 72 ∷ []) zeros (pos 5) intake refl header_bytes
      refl refl (omega arith) pieces-Fits refl

abbrev answering : ClientSession
answering = record (new_session zeros) {
  state = response_sending;
  response_buffer = 65 ∷ 66 ∷ 67 ∷ [];
  header_bytes_received = 4;
}

abbrev sends : List Sent
sends = sent 2 ∷ would_block ∷ sent 0 ∷ sent 1 ∷ []

send_all_lem_example :
    (wire sends answering ≡ 65 ∷ 66 ∷ 67 ∷ [])
    × (stays_open sends answering ≡ true)
    × HeaderSoFar (send_all sends answering) []
unfolding new_session
send_all_lem_example =
    send_all_lem sends answering refl refl (omega arith) (omega arith) refl tt refl

-- A kernel that accepts one connection after the other: the new descriptor is larger than the open
-- ones.
abbrev largest : List ℤ → ℕ
largest [] = 0
largest (pos n ∷ l) = n + largest l
largest (negsuc n ∷ l) = largest l

abbrev ready : List Pollfd → List Revents
ready [] = []
ready (p ∷ l) = record { readable = true; writable = false } ∷ ready l

abbrev some_kernel : Kernel
some_kernel = record {
  accept = λ n l. pos (suc (largest l));
  recv = λ n fd room. received (0 ∷ []);
  send = λ n fd bytes. sent 1;
  poll = λ n l. (pos (length l), ready l);
  now = λ n. n;
  garbage_header = λ n. zeros;
  garbage_revents = λ n. record { readable = true; writable = true };
}

abbrev answers : NaiveResultQueue InferenceResult
answers = record {
  items = new_result (pos 5) (65 ∷ []) none ∷ new_result (pos 6) (66 ∷ []) none ∷ [];
  stop = false;
}

abbrev server : TcpServer queue
server =
    record (new_server (pos 3) (record { readable = false; writable = false }) intake answers) {
      sessions = (pos 5, new_session zeros) ∷ [];
    }

handle_responses_lem_example :
    (find_session (pos 5) (handle_responses some_kernel 3 server).sessions
      ≡ answered (pos 5) answers.items (find_session (pos 5) server.sessions))
    × ((handle_responses some_kernel 3 server).response_queue ≡ record { items = []; stop = false })
unfolding new_server
handle_responses_lem_example =
    handle_responses_lem some_kernel answers.items false 3 (pos 5) server refl (omega arith)
