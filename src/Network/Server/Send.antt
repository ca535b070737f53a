-- ===== src/Network/Server/Send.antt =====
-- How the POLLOUT branch of `run` in src/TCPServer.cpp sends an answer.
use lumen_engine.Prelude.{
  ℕ, zero, suc, ◌+◌, ◌<◌, ◌≡◌, refl, sym, ap, ◌∙◌, subst, Bool, true, false, List, [], ◌∷◌, ◌++◌,
  append-nil, if◌then◌else◌, ◌==◌, arith, length, take, drop, length-drop, take_all, take-nil,
  take-append-drop, drop-nil, dec_lt, word, add_size,
}
use lumen_engine.Network.Session.{response_sending, ClientSession, reset}
use lumen_engine.Network.Kernel.{Sent, sent, would_block, failed}
use lumen_engine.Network.Buffers.{HeaderSoFar}
use lumen_engine.Network.Server.{unsent, after_send}

-- What `send` reported, call by call: the session afterwards, and the bytes on the wire.
pub send_all : List Sent → ClientSession → ClientSession
send_all [] s = s
send_all (r ∷ rs) s = send_all rs (after_send r s).0

pub wire : List Sent → ClientSession → List ℕ
wire [] s = []
wire (sent n ∷ rs) s = take n (unsent s) ++ wire rs (after_send (sent n) s).0
wire (would_block ∷ rs) s = wire rs (after_send would_block s).0
wire (failed ∷ rs) s = wire rs (after_send failed s).0

pub stays_open : List Sent → ClientSession → Bool
stays_open [] s = true
stays_open (r ∷ rs) s = if (after_send r s).1 then false else stays_open rs (after_send r s).0

abbrev pub total : List Sent → ℕ
total [] = 0
total (sent n ∷ rs) = n + total rs
total (would_block ∷ rs) = total rs
total (failed ∷ rs) = total rs

abbrev pub NoFailure : List Sent → Type 0
NoFailure [] = Unit
NoFailure (failed ∷ rs) = ⊥
NoFailure (sent n ∷ rs) = NoFailure rs
NoFailure (would_block ∷ rs) = NoFailure rs

take-drop-drop : (l : List ℕ) (a n : ℕ) → take n (drop a l) ++ drop (a + n) l ≡ drop a l
take-drop-drop l zero n = let e0 : 0 + n ≡ n = omega arith in rw e0 (take-append-drop n l)
take-drop-drop [] (suc a) n = rw (drop-nil ℕ (suc a + n)) (append-nil (take n []) ∙ take-nil ℕ n)
take-drop-drop (x ∷ l) (suc a) n =
    let e0 : suc a + n ≡ suc (a + n) = omega arith in rw e0 (take-drop-drop l a n)

nothing_more :
    (rs : List Sent) (s : ClientSession)
    → NoFailure rs
    → total rs ≡ 0
    → (wire rs s ≡ []) × (send_all rs s ≡ s) × (stays_open rs s ≡ true)
unfolding wire send_all stays_open after_send
nothing_more [] s ok e = (refl, refl, refl)
nothing_more (sent zero ∷ rs) s ok e = nothing_more rs s ok (omega arith)
nothing_more (sent (suc n) ∷ rs) s ok e = absurd (omega arith)
nothing_more (would_block ∷ rs) s ok e = nothing_more rs s ok e
nothing_more (failed ∷ rs) s ok e = elim ok [ ]

after_part :
    (s : ClientSession) (n : ℕ)
    → s.bytes_sent + suc n < length s.response_buffer
    → length s.response_buffer < word
    → after_send (sent (suc n)) s ≡ (record s { bytes_sent = s.bytes_sent + suc n }, false)
unfolding after_send
after_part s n less small =
    let tested : (s.bytes_sent + suc n == length s.response_buffer) ≡ false = ground arith in
    let e0 : add_size s.bytes_sent (suc n) ≡ s.bytes_sent + suc n = omega arith in
    rw e0 (
      ap
        (λ b. (
          if b
              then reset (record s { bytes_sent = s.bytes_sent + suc n })
              else record s { bytes_sent = s.bytes_sent + suc n },
          false,
        ))
        tested)

after_all :
    (s : ClientSession) (n : ℕ)
    → s.bytes_sent + suc n ≡ length s.response_buffer
    → length s.response_buffer < word
    → after_send (sent (suc n)) s
      ≡ (reset (record s { bytes_sent = length s.response_buffer }), false)
unfolding after_send
after_all s n e small =
    let tested : (length s.response_buffer == length s.response_buffer) ≡ true = ground arith in
    let e0 : add_size s.bytes_sent (suc n) ≡ length s.response_buffer = omega arith in
    rw e0 (
      ap
        (λ b. (
          if b
              then reset (record s { bytes_sent = length s.response_buffer })
              else record s { bytes_sent = length s.response_buffer },
          false,
        ))
        tested)

-- From the middle of an answer, when the counts add up to what is left of it.
abbrev Sends : List Sent → ClientSession → Type 0
Sends rs s =
    (wire rs s ≡ unsent s)
    × (stays_open rs s ≡ true)
    × (send_all rs s ≡ reset (record s { bytes_sent = length s.response_buffer }))

sends_step :
    (n : ℕ) (rs : List Sent) (s : ClientSession) {s' : ClientSession}
    → after_send (sent n) s ≡ (s', false)
    → (wire (sent n ∷ rs) s ≡ take n (unsent s) ++ wire rs s')
      × (stays_open (sent n ∷ rs) s ≡ stays_open rs s')
      × (send_all (sent n ∷ rs) s ≡ send_all rs s')
unfolding wire stays_open send_all
sends_step n rs s e = (
  ap (λ r. take n (unsent s) ++ wire rs r.0) e,
  ap (λ r. if r.1 then false else stays_open rs r.0) e,
  ap (λ r. send_all rs r.0) e,
)

rest-Sends :
    (rs : List Sent) (s : ClientSession)
    → NoFailure rs
    → length s.response_buffer < word
    → s.bytes_sent + total rs ≡ length s.response_buffer
    → 0 < total rs
    → Sends rs s
unfolding wire stays_open send_all after_send
rest-Sends [] s ok small e some_left = elim some_left [ ]
rest-Sends (sent zero ∷ rs) s ok small e some_left =
    rest-Sends rs s ok small (omega arith) (omega arith)
rest-Sends (would_block ∷ rs) s ok small e some_left = rest-Sends rs s ok small e some_left
rest-Sends (failed ∷ rs) s ok small e some_left = elim ok [ ]
rest-Sends (sent (suc n) ∷ rs) s ok small e some_left =
    elim (dec_lt (s.bytes_sent + suc n) (length s.response_buffer)) [
      | yes more ↦
          let (w, o, a) = sends_step (suc n) rs s (after_part s n more small) in
          let (w', o', a') =
            rest-Sends rs (record s { bytes_sent = s.bytes_sent + suc n }) ok small (omega arith)
              (omega arith) in
          (
            w
                ∙ ap (λ l. take (suc n) (unsent s) ++ l) w'
                ∙ take-drop-drop s.response_buffer s.bytes_sent (suc n),
            o ∙ o',
            a ∙ a',
          )
      | no full ↦
          let (w, o, a) = sends_step (suc n) rs s (after_all s n (omega arith) small) in
          let (w', a', o') =
            nothing_more rs (reset (record s { bytes_sent = length s.response_buffer })) ok
              (omega arith) in
          (
            w
                ∙ ap (λ l. take (suc n) (unsent s) ++ l) w'
                ∙ append-nil (take (suc n) (unsent s))
                ∙ take_all (unsent s) (suc n)
                    (omega (arith, length-drop s.bytes_sent s.response_buffer)),
            o ∙ o',
            a ∙ a',
          )
    ]

reset-HeaderSoFar : (s : ClientSession) → length s.header_buffer ≡ 4 → HeaderSoFar (reset s) []
unfolding reset
reset-HeaderSoFar s space = record {
  state = refl;
  counted = refl;
  unfinished = omega arith;
  space = space;
  stored = refl;
  no_body = refl;
  no_bytes = refl;
}

-- However `send` cuts an answer that is not empty into pieces, with any number of calls that send
-- nothing in between, and as long as no call fails: once the counts add up to the answer's length,
-- the bytes on the wire are the answer, each byte once and in order; the connection was never
-- closed; and the session is back to reading the header of the next request, with nothing read.
pub send_all_lem :
    (rs : List Sent) (s : ClientSession)
    → s.state ≡ response_sending
    → s.bytes_sent ≡ 0
    → 0 < length s.response_buffer
    → length s.response_buffer < word
    → length s.header_buffer ≡ 4
    → NoFailure rs
    → total rs ≡ length s.response_buffer
    → (wire rs s ≡ s.response_buffer) × (stays_open rs s ≡ true) × HeaderSoFar (send_all rs s) []
send_all_lem rs s sending fresh not_empty small space ok e =
    let (w, o, a) = rest-Sends rs s ok small (omega arith) (omega arith) in
    (
      w ∙ ap (λ n. drop n s.response_buffer) fresh,
      o,
      subst (λ s'. HeaderSoFar s' []) (sym a)
          (reset-HeaderSoFar (record s { bytes_sent = length s.response_buffer }) space),
    )
