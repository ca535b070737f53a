-- ===== src/Network/Framing.antt =====
-- A whole request, in pieces, through the handlers of src/TCPServer.cpp.
use lumen_engine.Prelude.{
  ℕ, ◌+◌, ◌<◌, ◌≡◌, sym, ap, ◌∙◌, List, [], ◌∷◌, ◌++◌, append_assoc, arith, length, length-append,
  ℤ, not_positive, dec_lt, subst, some,
}
use lumen_engine.Queue.Interface.{ITaskQueue}
use lumen_engine.Core.Types.{InferenceTask}
use lumen_engine.Network.Session.{
  ClientSession, received, ntohl, process_header, Intake, handle_client_data, new_session,
}
use lumen_engine.Network.Buffers.{AllBytes, HeaderSoFar}
use lumen_engine.Network.Header.{header_more, header_done}
use lumen_engine.Network.Feed.{
  bytes_of, positive, split_at, room_of_header, new_session-HeaderSoFar, Fits, handle_header,
  accept, Accepted, feed_step, body_feed,
}

module _ {t : ITaskQueue InferenceTask} where
  header_feed :
      (pieces : List (ℕ × List ℕ)) (c header body : List ℕ) (fd : ℤ) (s : ClientSession)
      (k : Intake t)
      → HeaderSoFar s c
      → AllBytes header
      → length header ≡ 4
      → length body ≡ ntohl header
      → 0 < length body
      → Fits pieces fd s k
      → c ++ bytes_of pieces ≡ header ++ body
      → Accepted pieces fd s k body
  header_feed [] c header body fd s k h small four announced some_body fits e =
      absurd
        (omega (arith, h.unfinished, ap length e, length-append c [], length-append header body))
  header_feed ((now, bytes) ∷ pieces) c header body fd s k h small four announced some_body fits e =
      elim (dec_lt (length c + length bytes) 4) [
        | yes more ↦
            let (n, h') = header_more h bytes more in
            let (now', s', fed, st, moved) =
              header_feed pieces (c ++ bytes) header body fd (process_header (received bytes) s).1 k
                h' small four announced some_body fits'
                (append_assoc c bytes (bytes_of pieces) ∙ e) in
            (
              now',
              s',
              feed_step now bytes pieces fd s k e0
                    (ap not_positive n ∙ positive (length bytes) fits.0)
                  ∙ fed,
              st,
              moved,
            )
        | no full ↦
            let (first, rest) =
              split_at (c ++ bytes) (bytes_of pieces) header body (four_read full)
                (append_assoc c bytes (bytes_of pieces) ∙ e) in
            let (n, h') =
              header_done h bytes (omega (arith, four_read full, four, length-append c bytes))
                (subst AllBytes (sym first) small)
                (omega (arith, ap ntohl first, announced, some_body)) in
            let (now', s', fed, st, moved) =
              body_feed pieces (c ++ bytes) [] fd (process_header (received bytes) s).1 k h' fits'
                (ap length rest ∙ announced ∙ ap ntohl (sym first) ∙ sym h'.announced) in
            (
              now',
              s',
              feed_step now bytes pieces fd s k e0 (ap not_positive n)
                  ∙ fed
                  ∙ ap (λ l. some (s', accept now' fd l k)) rest,
              st,
              moved,
            )
      ]
    where
      e0 :
          handle_client_data (received bytes) now fd s k
          ≡ ((process_header (received bytes) s).0, (process_header (received bytes) s).1, k)
      e0 = handle_header (received bytes) now fd s k h.state

      fits' : Fits pieces fd (process_header (received bytes) s).1 k
      fits' = subst (λ r. Fits pieces fd r.1 r.2) e0 fits.2

      four_read : ¬ (length c + length bytes < 4) → length (c ++ bytes) ≡ length header
      four_read full = omega (arith, room_of_header h fits.1, four, length-append c bytes)

  -- Whatever pieces the stream arrives in, each of at least one byte and none larger than the room
  -- offered, a new session that is sent a header of four bytes and a body of the length that the
  -- header announces in network order, not zero, pushes exactly one task: with that body, the
  -- descriptor and the server's processors. The connection stays open, the session waits for the
  -- answer, and the trace number goes up by one, modulo 2^32.
  pub feed_lem :
      (pieces : List (ℕ × List ℕ)) (header body garbage : List ℕ) (fd : ℤ) (k : Intake t)
      → length garbage ≡ 4
      → AllBytes header
      → length header ≡ 4
      → length body ≡ ntohl header
      → 0 < length body
      → Fits pieces fd (new_session garbage) k
      → bytes_of pieces ≡ header ++ body
      → Accepted pieces fd (new_session garbage) k body
  feed_lem pieces header body garbage fd k space small four announced some_body fits e =
      header_feed pieces [] header body fd (new_session garbage) k
        (new_session-HeaderSoFar garbage space) small four announced some_body fits e
