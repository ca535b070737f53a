-- ===== src/Network/Buffers.antt =====
-- The buffers of a session in src/TCPServer.cpp, and how much of a request they hold.
use lumen_engine.Prelude.{
  ℕ, ◌+◌, ◌^◌, ◌≤◌, ◌<◌, ◌≡◌, List, [], ◌∷◌, ◌++◌, append_assoc, arith, length, take, drop,
  length-append, length-take, length-drop, take-append_left,
}
use lumen_engine.Network.Session.{header_pending, body_pending, ClientSession, write_at, ntohl}

abbrev pub AllBytes : List ℕ → Type 0
AllBytes [] = Unit
AllBytes (b ∷ bs) = (b < 256) × AllBytes bs

-- Storing bytes in the room behind `at` keeps the buffer's size, and extends what is read so far.
pub length-write_at :
    (buffer : List ℕ) (at : ℕ) (bytes : List ℕ)
    → at + length bytes ≤ length buffer
    → length (write_at buffer at bytes) ≡ length buffer
length-write_at buffer at bytes h = omega (
  arith,
  length-append (take at buffer) (bytes ++ drop (at + length bytes) buffer),
  length-append bytes (drop (at + length bytes) buffer),
  length-take at buffer,
  length-drop (at + length bytes) buffer,
)

pub take-write_at :
    (buffer : List ℕ) (at n : ℕ) (bytes : List ℕ)
    → at ≤ length buffer
    → n ≡ at + length bytes
    → take n (write_at buffer at bytes) ≡ take at buffer ++ bytes
take-write_at buffer at n bytes h e =
    rw (← append_assoc (take at buffer) bytes (drop (at + length bytes) buffer)) (
      take-append_left (take at buffer ++ bytes) _ n
        (omega (arith, length-append (take at buffer) bytes, length-take at buffer)))

pub ntohl-lt : (header : List ℕ) → AllBytes header → ntohl header < 2 ^ 32
ntohl-lt (a ∷ b ∷ c ∷ d ∷ rest) h = omega arith
ntohl-lt (a ∷ b ∷ c ∷ []) h = omega arith
ntohl-lt (a ∷ b ∷ []) h = omega arith
ntohl-lt (a ∷ []) h = omega arith
ntohl-lt [] h = omega arith

-- The session has read the bytes `c`, fewer than four.
pub record HeaderSoFar (s : ClientSession) (c : List ℕ) : Type 0 where
  pub state : s.state ≡ header_pending
  pub counted : s.header_bytes_received ≡ length c
  pub unfinished : length c < 4
  pub space : length s.header_buffer ≡ 4
  pub stored : take (length c) s.header_buffer ≡ c
  pub no_body : s.body_buffer ≡ []
  pub no_bytes : s.bytes_received ≡ 0

-- It has read the header, and of the body the bytes `b`, fewer than announced.
pub record BodySoFar (s : ClientSession) (header b : List ℕ) : Type 0 where
  pub state : s.state ≡ body_pending
  pub announced : s.expected_size ≡ ntohl header
  pub small : s.expected_size < 2 ^ 32
  pub counted : s.bytes_received ≡ length b
  pub unfinished : length b < s.expected_size
  pub space : length s.body_buffer ≡ s.expected_size
  pub stored : take (length b) s.body_buffer ≡ b
