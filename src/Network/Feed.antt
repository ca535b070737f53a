-- ===== src/Network/Feed.antt =====
-- Feeding pieces of a stream to the handlers of src/TCPServer.cpp, up to the end of a body.
use lumen_engine.Prelude.{
  ℕ, ◌+◌, ◌-◌, ◌%◌, ◌^◌, ◌≤◌, ◌<◌, ◌≡◌, refl, sym, ap, ap₂, ◌∙◌, false, List, [], ◌∷◌, ◌++◌,
  append-nil, append_assoc, if◌then◌else◌, arith, length, take, drop, length-append,
  take-append_left, drop-append_left, ℤ, pos, not_positive, dec_lt, subst, Option, none, some,
}
use lumen_engine.Queue.Interface.{ITaskQueue}
use lumen_engine.Core.Types.{InferenceTask, new_trace}
use lumen_engine.Network.Session.{
  State, header_pending, body_pending, inference_pending, ClientSession, Recv, received, ntohl,
  header_room, body_room, process_header, Intake, process_body, handle_client_data, handle_in_state,
  new_session,
}
use lumen_engine.Network.Buffers.{HeaderSoFar, BodySoFar}
use lumen_engine.Network.Body.{body_more, body_done}

-- The space that the handler offers to `recv`.
abbrev pub room : State → ClientSession → ℕ
room header_pending s = header_room s
room body_pending s = body_room s
room _ s = 0

abbrev pub bytes_of : List (ℕ × List ℕ) → List ℕ
bytes_of [] = []
bytes_of ((now, bytes) ∷ pieces) = bytes ++ bytes_of pieces

pub positive : (n : ℕ) → 0 < n → not_positive (pos n) ≡ false
positive n h = ground arith

pub room_of_body :
    {s : ClientSession} {announced b : List ℕ} {n : ℕ}
    → BodySoFar s announced b
    → n ≤ room s.state s
    → n ≤ s.expected_size - length b
room_of_body h fits = ground (arith, h.state, h.counted, h.small)

pub split_at :
    (xs ys zs ws : List ℕ) → length xs ≡ length zs → xs ++ ys ≡ zs ++ ws → (xs ≡ zs) × (ys ≡ ws)
split_at xs ys zs ws same e = (
  sym (take-append_left xs ys (length xs) refl)
      ∙ ap (take (length xs)) e
      ∙ take-append_left zs ws (length xs) same,
  sym (drop-append_left xs ys (length xs) refl)
      ∙ ap (drop (length xs)) e
      ∙ drop-append_left zs ws (length xs) same,
)

pub room_of_header :
    {s : ClientSession} {c : List ℕ} {n : ℕ}
    → HeaderSoFar s c
    → n ≤ room s.state s
    → n ≤ 4 - length c
room_of_header h fits = ground (arith, h.state, h.counted, h.unfinished)

pub new_session-HeaderSoFar :
    (garbage : List ℕ) → length garbage ≡ 4 → HeaderSoFar (new_session garbage) []
unfolding new_session
new_session-HeaderSoFar garbage space = record {
  state = refl;
  counted = refl;
  unfinished = omega arith;
  space = space;
  stored = refl;
  no_body = refl;
  no_bytes = refl;
}

abbrev pub finished : ClientSession → ClientSession
finished s = record s {
  bytes_received = s.expected_size;
  body_buffer = [];
  state = inference_pending;
}

pub last_bytes :
    (bytes : List ℕ) (pieces : List (ℕ × List ℕ)) → pieces ≡ [] → bytes ++ bytes_of pieces ≡ bytes
last_bytes bytes pieces e = ap (λ ps. bytes ++ bytes_of ps) e ∙ append-nil bytes

module _ {t : ITaskQueue InferenceTask} where
  -- What one call of `recv` returned, each with the time of the call. The server closes the
  -- connection as soon as the handler's result is not positive: `none`.
  pub feed : List (ℕ × List ℕ) → ℤ → ClientSession → Intake t → Option (ClientSession × Intake t)
  feed [] fd s k = some (s, k)
  feed ((now, bytes) ∷ pieces) fd s k =
      let r = handle_client_data (received bytes) now fd s k in
      if not_positive r.0 then none else feed pieces fd r.1 r.2

  -- `recv` returns at least one byte, and no more than the buffer has room for.
  abbrev pub Fits : List (ℕ × List ℕ) → ℤ → ClientSession → Intake t → Type 0
  Fits [] fd s k = Unit
  Fits ((now, bytes) ∷ pieces) fd s k =
      (0 < length bytes)
      × (length bytes ≤ room s.state s)
      × (let r = handle_client_data (received bytes) now fd s k in Fits pieces fd r.1 r.2)

  pub handle_header :
      (r : Recv) (now : ℕ) (fd : ℤ) (s : ClientSession) (k : Intake t)
      → s.state ≡ header_pending
      → handle_client_data r now fd s k ≡ ((process_header r s).0, (process_header r s).1, k)
  unfolding handle_client_data
  handle_header r now fd s k e = ap (λ st. handle_in_state st r now fd s k) e

  pub handle_body :
      (r : Recv) (now : ℕ) (fd : ℤ) (s : ClientSession) (k : Intake t)
      → s.state ≡ body_pending
      → handle_client_data r now fd s k ≡ process_body r now fd s k
  unfolding handle_client_data
  handle_body r now fd s k e = ap (λ st. handle_in_state st r now fd s k) e

  -- The queue after the one push, and the next trace number.
  abbrev pub accept : (now : ℕ) → ℤ → List ℕ → Intake t → Intake t
  accept now fd bytes k = record k {
    task_queue =
        (t.push
          (record {
            client_fd = fd;
            bytes = bytes;
            pre = k.pre;
            post = k.post;
            trace = some (new_trace now k.trace_id_gen);
          })
          k.task_queue).1;
    trace_id_gen = (k.trace_id_gen + 1) % 2 ^ 32;
  }

  abbrev pub Accepted : List (ℕ × List ℕ) → ℤ → ClientSession → Intake t → List ℕ → Type 0
  Accepted pieces fd s k body =
      (now : ℕ) × (s' : ClientSession) × (feed pieces fd s k ≡ some (s', accept now fd body k))
      × (s'.state ≡ inference_pending)
      × (s'.body_buffer ≡ [])

  pub nothing_left :
      (pieces : List (ℕ × List ℕ)) (fd : ℤ) (s : ClientSession) (k : Intake t)
      → Fits pieces fd s k
      → length (bytes_of pieces) ≡ 0
      → pieces ≡ []
  nothing_left [] fd s k fits e = refl
  nothing_left ((now, bytes) ∷ pieces) fd s k fits e =
      absurd (omega (arith, fits.0, length-append bytes (bytes_of pieces)))

  pub feed_step :
      (now : ℕ) (bytes : List ℕ) (pieces : List (ℕ × List ℕ)) (fd : ℤ) (s : ClientSession)
      (k : Intake t) {r : ℤ × ClientSession × Intake t}
      → handle_client_data (received bytes) now fd s k ≡ r
      → not_positive r.0 ≡ false
      → feed ((now, bytes) ∷ pieces) fd s k ≡ feed pieces fd r.1 r.2
  unfolding feed
  feed_step now bytes pieces fd s k {r} e p =
      ap
        (λ (r : ℤ × ClientSession × Intake t).
          if not_positive r.0 then none else feed pieces fd r.1 r.2)
        e
      ∙ ap (λ b. if b then none else feed pieces fd r.1 r.2) p

  pub feed_last :
      (pieces : List (ℕ × List ℕ)) (fd : ℤ) (s : ClientSession) (k : Intake t)
      → pieces ≡ []
      → feed pieces fd s k ≡ some (s, k)
  unfolding feed
  feed_last pieces fd s k e = ap (λ ps. feed ps fd s k) e

  pub body_feed :
      (pieces : List (ℕ × List ℕ)) (announced b : List ℕ) (fd : ℤ) (s : ClientSession)
      (k : Intake t)
      → BodySoFar s announced b
      → Fits pieces fd s k
      → length (b ++ bytes_of pieces) ≡ s.expected_size
      → Accepted pieces fd s k (b ++ bytes_of pieces)
  body_feed [] announced b fd s k h fits e =
      absurd (omega (arith, h.unfinished, length-append b []))
  body_feed ((now, bytes) ∷ pieces) announced b fd s k h fits e =
      elim (dec_lt (length b + length bytes) s.expected_size) [
        | yes more ↦
            let r = process_body (received bytes) now fd s k in
            let (n, h', same) = body_more h bytes now fd k more in
            let (now', s', fed, st, moved) =
              body_feed pieces announced (b ++ bytes) fd r.1 r.2 h' fits'
                (regrouped h'.announced) in
            (
              now',
              s',
              feed_step now bytes pieces fd s k e0
                    (ap not_positive n ∙ positive (length bytes) fits.0)
                  ∙ fed
                  ∙ ap₂ (λ k l. some (s', accept now' fd l k)) same
                      (append_assoc b bytes (bytes_of pieces)),
              st,
              moved,
            )
        | no full ↦
            let done = body_done h bytes now fd k (exactly full) in
            let empty =
              nothing_left pieces fd (process_body (received bytes) now fd s k).1
                (process_body (received bytes) now fd s k).2 fits' (none_left full) in
            (
              now,
              finished s,
              feed_step now bytes pieces fd s k (e0 ∙ done) refl
                  ∙ feed_last pieces fd (finished s) (accept now fd (b ++ bytes) k) empty
                  ∙ ap (λ l. some (finished s, accept now fd (b ++ l) k))
                      (sym (last_bytes bytes pieces empty)),
              refl,
              refl,
            )
      ]
    where
      e0 : handle_client_data (received bytes) now fd s k ≡ process_body (received bytes) now fd s k
      e0 = handle_body (received bytes) now fd s k h.state

      fits' :
          Fits pieces fd
            (process_body (received bytes) now fd s k).1
            (process_body (received bytes) now fd s k).2
      fits' = subst (λ r. Fits pieces fd r.1 r.2) e0 fits.2

      fits_room : length bytes ≤ s.expected_size - length b
      fits_room = omega (arith, room_of_body h fits.1)

      regrouped : {n : ℕ} → n ≡ ntohl announced → length ((b ++ bytes) ++ bytes_of pieces) ≡ n
      regrouped a = ap length (append_assoc b bytes (bytes_of pieces)) ∙ e ∙ h.announced ∙ sym a

      exactly :
          ¬ (length b + length bytes < s.expected_size) → length b + length bytes ≡ s.expected_size
      exactly full = omega (arith, fits_room, h.unfinished)

      none_left : ¬ (length b + length bytes < s.expected_size) → length (bytes_of pieces) ≡ 0
      none_left full = omega (
        arith,
        e,
        fits_room,
        length-append b (bytes ++ bytes_of pieces),
        length-append bytes (bytes_of pieces),
      )
