-- ===== src/Network/Header.antt =====
-- `TCPServer::process_header` in src/TCPServer.cpp: one piece of the header.
use lumen_engine.Prelude.{
  ℕ, zero, suc, ◌+◌, ◌≤◌, ◌<◌, ◌≡◌, refl, sym, ap, ◌∙◌, false, List, [], ◌++◌, ◌==◌, arith, length,
  take, replicate, length-append, length-replicate, take_all, pos, add_size,
}
use lumen_engine.Network.Session.{
  body_pending, ClientSession, received, write_at, resize, ntohl, process_header,
}
use lumen_engine.Network.Buffers.{
  AllBytes, length-write_at, take-write_at, ntohl-lt, HeaderSoFar, BodySoFar,
}

resize-nil : (n : ℕ) → resize n [] ≡ replicate n 0
resize-nil zero = refl
resize-nil (suc n) = ap (λ k. replicate k 0) {y = suc n} (omega arith)

module _ {s : ClientSession} {c : List ℕ} (h : HeaderSoFar s c) (bytes : List ℕ) where
  header : List ℕ
  header = write_at s.header_buffer s.header_bytes_received bytes

  header_read : take s.header_bytes_received s.header_buffer ≡ c
  header_read = ap (λ n. take n s.header_buffer) h.counted ∙ h.stored

  header_stored :
      (n : ℕ)
      → n ≡ length c + length bytes
      → length c + length bytes ≤ 4
      → take n header ≡ c ++ bytes
  unfolding header
  header_stored n e fits =
      take-write_at s.header_buffer s.header_bytes_received n bytes
        (omega (arith, h.counted, h.space)) (omega (arith, h.counted))
      ∙ ap (λ l. l ++ bytes) header_read

  header_space : length c + length bytes ≤ 4 → length header ≡ 4
  unfolding header
  header_space fits =
      length-write_at s.header_buffer s.header_bytes_received bytes
        (omega (arith, h.counted, h.space))
      ∙ h.space

  header_full : length c + length bytes ≡ 4 → header ≡ c ++ bytes
  header_full full =
      sym (take_all header 4 (omega (arith, header_space (omega arith))))
      ∙ header_stored 4 (omega arith) (omega arith)

  pub header_more :
      length c + length bytes < 4
      → let (n, s') = process_header (received bytes) s in
        (n ≡ pos (length bytes)) × HeaderSoFar s' (c ++ bytes)
  unfolding process_header header
  header_more more = rw unfinished (
    refl,
    record {
      state = h.state;
      counted = omega (arith, h.counted, length-append c bytes);
      unfinished = omega (arith, length-append c bytes);
      space = header_space (omega arith);
      stored = header_stored (length (c ++ bytes)) (length-append c bytes) (omega arith);
      no_body = h.no_body;
      no_bytes = h.no_bytes;
    },
  )
    where
      unfinished : (add_size s.header_bytes_received (length bytes) == 4) ≡ false
      unfinished = ground (arith, h.counted)

  -- The fourth byte: the body's buffer gets the announced size.
  header_last :
      length c + length bytes ≡ 4
      → process_header (received bytes) s ≡ (
        pos 1,
        record s {
          header_buffer = c ++ bytes;
          header_bytes_received = 4;
          state = body_pending;
          expected_size = ntohl (c ++ bytes);
          body_buffer = replicate (ntohl (c ++ bytes)) 0;
        },
      )
  unfolding process_header header
  header_last full =
      ground (arith, h.counted, h.no_body, header_full full, resize-nil (ntohl (c ++ bytes)))

  pub header_done :
      length c + length bytes ≡ 4
      → AllBytes (c ++ bytes)
      → 0 < ntohl (c ++ bytes)
      → let (n, s') = process_header (received bytes) s in
        (n ≡ pos 1) × BodySoFar s' (c ++ bytes) []
  header_done full small some_body = rw (header_last full) (
    refl,
    record {
      state = refl;
      announced = refl;
      small = ntohl-lt (c ++ bytes) small;
      counted = h.no_bytes;
      unfinished = some_body;
      space = length-replicate (ntohl (c ++ bytes)) 0;
      stored = refl;
    },
  )
