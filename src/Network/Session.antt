-- ===== src/Network/Session.antt =====
-- `TCPServer::ClientSession`, and the methods of src/TCPServer.cpp that read one request into it.
use lumen_engine.Prelude.{
  ℕ, ◌+◌, ◌-◌, ◌*◌, ◌%◌, ◌^◌, Option, some, List, [], ◌∷◌, ◌++◌, if◌then◌else◌, ◌==◌, length, take,
  drop, replicate, add_size, sub_size, ℤ, pos, minus_one,
}
use lumen_engine.Queue.Interface.{ITaskQueue}
use lumen_engine.Core.Types.{InferenceTask, PreProcessor, PostProcessor, Text, new_trace}

pub data State : Type 0 where
  header_pending : State
  body_pending : State
  ready_for_inference : State
  inference_pending : State
  response_sending : State

pub record ClientSession : Type 0 where
  pub state : State
  pub expected_size : ℕ
  pub bytes_received : ℕ
  pub body_buffer : List ℕ
  pub header_buffer : List ℕ
  pub header_bytes_received : ℕ
  pub response_buffer : Text
  pub bytes_sent : ℕ

-- `ClientSession()`. The header buffer is not initialised: its contents are an argument.
unfoldable pub new_session : List ℕ → ClientSession
new_session garbage = record {
  state = header_pending;
  expected_size = 0;
  bytes_received = 0;
  body_buffer = [];
  header_buffer = garbage;
  header_bytes_received = 0;
  response_buffer = [];
  bytes_sent = 0;
}

unfoldable pub reset : ClientSession → ClientSession
reset s = record s {
  body_buffer = [];
  bytes_received = 0;
  expected_size = 0;
  header_bytes_received = 0;
  state = header_pending;
}

-- What `recv` returned, with `errno`: some bytes, the end of the stream, no bytes yet, or an error.
pub data Recv : Type 0 where
  received : List ℕ → Recv
  closed : Recv
  would_block : Recv
  failed : Recv

-- The bytes that `recv` stores behind `buffer + at`.
abbrev pub write_at : List ℕ → ℕ → List ℕ → List ℕ
write_at buffer at bytes = take at buffer ++ (bytes ++ drop (at + length bytes) buffer)

-- `std::vector::resize`
abbrev pub resize : ℕ → List ℕ → List ℕ
resize n l = take n l ++ replicate (n - length l) 0

-- `ntohl` of the four bytes that `memcpy` takes from the header.
abbrev pub ntohl : List ℕ → ℕ
ntohl (a ∷ b ∷ c ∷ d ∷ _) = a * 2 ^ 24 + b * 2 ^ 16 + c * 2 ^ 8 + d
ntohl _ = 0

-- The space that `process_header` offers to `recv`.
abbrev pub header_room : ClientSession → ℕ
header_room s = sub_size 4 s.header_bytes_received

unfoldable pub process_header : Recv → ClientSession → ℤ × ClientSession
process_header (received bytes) s =
    let header = write_at s.header_buffer s.header_bytes_received bytes in
    let count = add_size s.header_bytes_received (length bytes) in
    if count == 4
    then (
      pos 1,
      record s {
        header_buffer = header;
        header_bytes_received = count;
        state = body_pending;
        expected_size = ntohl header;
        body_buffer = resize (ntohl header) s.body_buffer;
      },
    )
    else (pos (length bytes), record s { header_buffer = header; header_bytes_received = count })
process_header closed s = (pos 0, s)
process_header would_block s = (minus_one, s)
process_header failed s = (minus_one, s)

-- The space that `process_body` offers to `recv`.
abbrev pub body_room : ClientSession → ℕ
body_room s = sub_size s.expected_size s.bytes_received

abbrev pub store_body : List ℕ → ClientSession → ClientSession
store_body bytes s = record s {
  body_buffer = write_at s.body_buffer s.bytes_received bytes;
  bytes_received = add_size s.bytes_received (length bytes);
}

-- The parts of the server that `finalize_request` changes, and the processors that it hands on.
module _ (t : ITaskQueue InferenceTask) where
  pub record Intake : Type 0 where
    pub task_queue : t.Q
    pub trace_id_gen : ℕ  -- a static `uint32_t`
    pub pre : Option PreProcessor
    pub post : Option PostProcessor

module _ {t : ITaskQueue InferenceTask} where
  abbrev pub task_of : (now : ℕ) → ℤ → ClientSession → Intake t → InferenceTask
  task_of now fd s k = record {
    client_fd = fd;
    bytes = s.body_buffer;
    pre = k.pre;
    post = k.post;
    trace = some (new_trace now k.trace_id_gen);
  }

  -- The result of `push` is not looked at; the session's buffer has been moved from.
  unfoldable pub finalize_request :
      (now : ℕ) → ℤ → ClientSession → Intake t → ℤ × ClientSession × Intake t
  finalize_request now fd s k = (
    pos 1,
    record s { body_buffer = []; state = inference_pending },
    record k {
      task_queue = (t.push (task_of now fd s k) k.task_queue).1;
      trace_id_gen = (k.trace_id_gen + 1) % 2 ^ 32;
    },
  )

  unfoldable pub receive_body :
      Recv → (now : ℕ) → ℤ → ClientSession → Intake t → ℤ × ClientSession × Intake t
  unfolding finalize_request
  receive_body (received bytes) now fd s k =
      let s' = store_body bytes s in
      let final = finalize_request now fd (record s' { state = ready_for_inference }) k in
      if s'.bytes_received == s'.expected_size
      then (pos 1, final.1, final.2)
      else (pos (length bytes), s', k)
  receive_body would_block now fd s k = (pos 1, s, k)
  receive_body failed now fd s k = (minus_one, s, k)
  receive_body closed now fd s k = (pos 0, s, k)

  unfoldable pub process_body :
      Recv → (now : ℕ) → ℤ → ClientSession → Intake t → ℤ × ClientSession × Intake t
  unfolding receive_body
  process_body r now fd s k =
      if length s.body_buffer == 0 then (minus_one, s, k) else receive_body r now fd s k

  -- The switch of `handle_client_data`; a session that waits or sends has no case of its own.
  abbrev pub handle_in_state :
      State → Recv → (now : ℕ) → ℤ → ClientSession → Intake t → ℤ × ClientSession × Intake t
  handle_in_state header_pending r now fd s k = let (n, s') = process_header r s in (n, s', k)
  handle_in_state body_pending r now fd s k = process_body r now fd s k
  handle_in_state ready_for_inference r now fd s k = finalize_request now fd s k
  handle_in_state inference_pending r now fd s k = (pos 1, s, k)
  handle_in_state response_sending r now fd s k = (pos 1, s, k)

  unfoldable pub handle_client_data :
      Recv → (now : ℕ) → ℤ → ClientSession → Intake t → ℤ × ClientSession × Intake t
  unfolding process_header process_body finalize_request
  handle_client_data r now fd s k = handle_in_state s.state r now fd s k
