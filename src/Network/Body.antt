-- ===== src/Network/Body.antt =====
-- `TCPServer::process_body` in src/TCPServer.cpp: one piece of the body.
use lumen_engine.Prelude.{
  ℕ, ◌+◌, ◌%◌, ◌^◌, ◌≤◌, ◌<◌, ◌≡◌, refl, sym, ap, ap₂, ◌∙◌, true, false, List, [], ◌++◌, ◌==◌,
  arith, length, take, length-append, take_all, ℤ, pos, add_size, some,
}
use lumen_engine.Queue.Interface.{ITaskQueue}
use lumen_engine.Core.Types.{InferenceTask, new_trace}
use lumen_engine.Network.Session.{
  inference_pending, ClientSession, received, write_at, Intake, process_body,
}
use lumen_engine.Network.Buffers.{length-write_at, take-write_at, BodySoFar}

module _ {t : ITaskQueue InferenceTask} {s : ClientSession} {announced b : List ℕ}
    (h : BodySoFar s announced b) (bytes : List ℕ) (now : ℕ) (fd : ℤ) (k : Intake t) where
  body : List ℕ
  body = write_at s.body_buffer s.bytes_received bytes

  body_read : take s.bytes_received s.body_buffer ≡ b
  body_read = ap (λ n. take n s.body_buffer) h.counted ∙ h.stored

  body_stored :
      (n : ℕ)
      → n ≡ length b + length bytes
      → length b + length bytes ≤ s.expected_size
      → take n body ≡ b ++ bytes
  unfolding body
  body_stored n e fits =
      take-write_at s.body_buffer s.bytes_received n bytes (omega (arith, h.counted, h.space))
        (omega (arith, h.counted))
      ∙ ap (λ l. l ++ bytes) body_read

  body_space : length b + length bytes ≤ s.expected_size → length body ≡ s.expected_size
  unfolding body
  body_space fits =
      length-write_at s.body_buffer s.bytes_received bytes (omega (arith, h.counted, h.space))
      ∙ h.space

  body_full : length b + length bytes ≡ s.expected_size → body ≡ b ++ bytes
  body_full full =
      sym (take_all body s.expected_size (omega (arith, body_space (omega arith))))
      ∙ body_stored s.expected_size (sym full) (omega arith)

  not_empty : (length s.body_buffer == 0) ≡ false
  not_empty = ground (arith, h.space, h.unfinished)

  pub body_more :
      length b + length bytes < s.expected_size
      → let (n, s', k') = process_body (received bytes) now fd s k in
        (n ≡ pos (length bytes)) × BodySoFar s' announced (b ++ bytes) × (k' ≡ k)
  unfolding process_body body
  body_more more =
      rw (not_empty, unfinished)
        (
          refl,
          record {
            state = h.state;
            announced = h.announced;
            small = h.small;
            counted = omega (arith, h.counted, h.small, length-append b bytes);
            unfinished = omega (arith, length-append b bytes);
            space = body_space (omega arith);
            stored = body_stored (length (b ++ bytes)) (length-append b bytes) (omega arith);
          },
          refl,
        )
    where
      unfinished : (add_size s.bytes_received (length bytes) == s.expected_size) ≡ false
      unfinished = ground (arith, h.counted, h.small)

  -- The last byte: one task, with exactly the body that was read, goes to the queue.
  pub body_done :
      length b + length bytes ≡ s.expected_size
      → process_body (received bytes) now fd s k ≡ (
        pos 1,
        record s { bytes_received = s.expected_size; body_buffer = []; state = inference_pending },
        record k {
          task_queue =
              (t.push
                (record {
                  client_fd = fd;
                  bytes = b ++ bytes;
                  pre = k.pre;
                  post = k.post;
                  trace = some (new_trace now k.trace_id_gen);
                })
                k.task_queue).1;
          trace_id_gen = (k.trace_id_gen + 1) % 2 ^ 32;
        },
      )
  unfolding process_body body
  body_done full = rw (not_empty, finished) (ap₂ after (body_full full) count)
    where
      count : add_size s.bytes_received (length bytes) ≡ s.expected_size
      count = omega (arith, h.counted, h.small)

      finished : (add_size s.bytes_received (length bytes) == s.expected_size) ≡ true
      finished = ground (arith, count)

      after : List ℕ → ℕ → ℤ × ClientSession × Intake t
      after l n = (
        pos 1,
        record s { bytes_received = n; body_buffer = []; state = inference_pending },
        record k {
          task_queue =
              (t.push
                (record {
                  client_fd = fd;
                  bytes = l;
                  pre = k.pre;
                  post = k.post;
                  trace = some (new_trace now k.trace_id_gen);
                })
                k.task_queue).1;
          trace_id_gen = (k.trace_id_gen + 1) % 2 ^ 32;
        },
      )
