-- ===== src/Network/Server/Respond.antt =====
-- How `handle_responses` in src/TCPServer.cpp gives the workers' answers to the connections.
use lumen_engine.Prelude.{
  ℕ, zero, suc, ◌+◌, ◌<◌, ◌≡◌, ◌⊎◌, inl, inr, refl, sym, ap, ap₂, ◌∙◌, Bool, true, false,
  Bool-cases, Option, none, some, List, [], ◌∷◌, if◌then◌else◌, arith, length, ℤ, ◌==ℤ◌, ==ℤ_iff,
}
use lumen_engine.Queue.Interface.{ITaskQueue}
use lumen_engine.Queue.Result.{NaiveResultQueue, pop_immediate}
use lumen_engine.Core.Types.{InferenceTask, InferenceResult}
use lumen_engine.Network.Session.{response_sending, ClientSession}
use lumen_engine.Network.Kernel.{Kernel}
use lumen_engine.Network.Sessions.{Sessions, find_session, put_session}
use lumen_engine.Network.Server.{TcpServer, captured_trace, respond, handle_responses}

overwrite :
    {A : Type 0} (b : Bool) (v s o : A)
    → (if b then v else o) ≡ (if b then v else (if b then s else o))
overwrite true v s o = refl
overwrite false v s o = refl

pub find-put_session :
    (fd key : ℤ) (v : ClientSession) (sessions : Sessions)
    → find_session key (put_session fd v sessions)
      ≡ (if fd ==ℤ key then some v else find_session key sessions)
unfolding find_session put_session
find-put_session fd key v [] = refl
find-put_session fd key v ((k, s) ∷ rest) = elim (Bool-cases (k ==ℤ fd)) [
  | inl hit ↦
      ap (λ b. find_session key (if b then (k, v) ∷ rest else (k, s) ∷ put_session fd v rest)) hit
      ∙ overwrite (k ==ℤ key) (some v) (some s) (find_session key rest)
      ∙ ap
          (λ z. if z ==ℤ key then some v else (if k ==ℤ key then some s else find_session key rest))
          ((==ℤ_iff k fd).0 hit)
  | inr miss ↦
      ap (λ b. find_session key (if b then (k, v) ∷ rest else (k, s) ∷ put_session fd v rest)) miss
      ∙ ap (λ o. if k ==ℤ key then some s else o) (find-put_session fd key v rest)
      ∙ not_both (Bool-cases (fd ==ℤ key)) miss
]
  where
    not_both :
        ((fd ==ℤ key) ≡ true) ⊎ ((fd ==ℤ key) ≡ false)
        → (k ==ℤ fd) ≡ false
        → (if k ==ℤ key then some s else (if fd ==ℤ key then some v else find_session key rest))
          ≡ (if fd ==ℤ key then some v else (if k ==ℤ key then some s else find_session key rest))
    not_both (inl e) miss =
        ap (λ z. if k ==ℤ z then some s else (if fd ==ℤ key then some v else find_session key rest))
          (sym ((==ℤ_iff fd key).0 e))
        ∙ ap₂ (λ a b. if a then some s else (if b then some v else find_session key rest)) miss e
        ∙ ap (λ b. if b then some v else (if k ==ℤ key then some s else find_session key rest))
            (sym e)
    not_both (inr e) miss =
        ap (λ b. if k ==ℤ key then some s else (if b then some v else find_session key rest)) e
        ∙ ap (λ b. if b then some v else (if k ==ℤ key then some s else find_session key rest))
            (sym e)

-- What the answers in the queue make of a session: the last one for its descriptor counts.
pub answered : ℤ → List InferenceResult → Option ClientSession → Option ClientSession
answered fd results none = none
answered fd [] (some s) = some s
answered fd (res ∷ results) (some s) = answered fd results (
    some (
      if res.client_fd ==ℤ fd
      then record s { response_buffer = res.response; state = response_sending; bytes_sent = 0 }
      else s))

abbrev answer_of : InferenceResult → ClientSession → ClientSession
answer_of res s = record s {
  response_buffer = res.response;
  state = response_sending;
  bytes_sent = 0;
}

answered_step :
    (fd : ℤ) (res : InferenceResult) (results : List InferenceResult) (o : Option ClientSession)
    → answered fd results (answered fd (res ∷ []) o) ≡ answered fd (res ∷ results) o
unfolding answered
answered_step fd res [] none = refl
answered_step fd res (r ∷ rs) none = refl
answered_step fd res results (some s) = refl

answered_nil : (fd : ℤ) (o : Option ClientSession) → o ≡ answered fd [] o
unfolding answered
answered_nil fd none = refl
answered_nil fd (some s) = refl

-- What one answer makes of the table.
lost_answer :
    (fd : ℤ) (res : InferenceResult) (sessions : Sessions)
    → find_session res.client_fd sessions ≡ none
    → find_session fd sessions ≡ answered fd (res ∷ []) (find_session fd sessions)
unfolding answered
lost_answer fd res sessions e = elim (Bool-cases (res.client_fd ==ℤ fd)) [
  | inl hit ↦
      let gone : find_session fd sessions ≡ none =
        ap (λ z. find_session z sessions) (sym ((==ℤ_iff res.client_fd fd).0 hit)) ∙ e in
      gone ∙ sym (ap (λ o. answered fd (res ∷ []) o) gone)
  | inr miss ↦ same miss (find_session fd sessions)
]
  where
    same :
        (res.client_fd ==ℤ fd) ≡ false → (o : Option ClientSession) → o ≡ answered fd (res ∷ []) o
    same miss none = refl
    same miss (some s) = ap (λ b. some (if b then answer_of res s else s)) (sym miss)

given_answer :
    (fd : ℤ) (res : InferenceResult) (sessions : Sessions) (s : ClientSession)
    → find_session res.client_fd sessions ≡ some s
    → find_session fd (put_session res.client_fd (answer_of res s) sessions)
      ≡ answered fd (res ∷ []) (find_session fd sessions)
unfolding answered
given_answer fd res sessions s e =
    find-put_session res.client_fd fd (answer_of res s) sessions
    ∙ elim (Bool-cases (res.client_fd ==ℤ fd)) [
      | inl hit ↦
          let there : find_session fd sessions ≡ some s =
            ap (λ z. find_session z sessions) (sym ((==ℤ_iff res.client_fd fd).0 hit)) ∙ e in
          ap (λ b. if b then some (answer_of res s) else find_session fd sessions) hit
          ∙ sym (ap (λ b. some (if b then answer_of res s else s)) hit)
          ∙ sym (ap (λ o. answered fd (res ∷ []) o) there)
      | inr miss ↦
          ap (λ b. if b then some (answer_of res s) else find_session fd sessions) miss
          ∙ same miss (find_session fd sessions)
    ]
  where
    same :
        (res.client_fd ==ℤ fd) ≡ false → (o : Option ClientSession) → o ≡ answered fd (res ∷ []) o
    same miss none = refl
    same miss (some s) = ap (λ b. some (if b then answer_of res s else s)) (sym miss)

module _ {t : ITaskQueue InferenceTask} (kernel : Kernel) where
  abbrev pub responded : InferenceResult → TcpServer t → Option ClientSession → TcpServer t
  responded res sv o = elim o [
    | none ↦ record sv { calls = sv.calls + 1 }
    | some s ↦ record sv {
      sessions = put_session res.client_fd (answer_of res s) sv.sessions;
      captured = captured_trace (kernel.now sv.calls) res.trace sv.captured;
      calls = sv.calls + 1;
    }
  ]

  respond_cases :
      (res : InferenceResult) (fd : ℤ) (sv : TcpServer t)
      → (find_session fd (respond kernel res sv).sessions
          ≡ answered fd (res ∷ []) (find_session fd sv.sessions))
        × ((respond kernel res sv).response_queue ≡ sv.response_queue)
  unfolding respond
  respond_cases res fd sv = go (find_session res.client_fd sv.sessions) refl
    where
      go :
          (o : Option ClientSession)
          → find_session res.client_fd sv.sessions ≡ o
          → (find_session fd (responded res sv (find_session res.client_fd sv.sessions)).sessions
              ≡ answered fd (res ∷ []) (find_session fd sv.sessions))
            × ((responded res sv (find_session res.client_fd sv.sessions)).response_queue
                ≡ sv.response_queue)
      go none e = (
        ap (λ o. find_session fd (responded res sv o).sessions) e
            ∙ lost_answer fd res sv.sessions e,
        ap (λ o. (responded res sv o).response_queue) e,
      )
      go (some s) e = (
        ap (λ o. find_session fd (responded res sv o).sessions) e
            ∙ given_answer fd res sv.sessions s e,
        ap (λ o. (responded res sv o).response_queue) e,
      )

  abbrev pub polled : ℕ → TcpServer t → NaiveResultQueue InferenceResult → TcpServer t
  polled fuel sv q =
      let r = pop_immediate q in
      elim r.0 [
        | none ↦ record sv { response_queue = r.1 }
        | some res ↦
            handle_responses kernel fuel (respond kernel res (record sv { response_queue = r.1 }))
      ]

  -- The loop of `handle_responses` empties the queue, and one step for each answer and one more are
  -- enough. A descriptor that has no session gets none; the session of any other takes the answers
  -- for it, in the order of the queue, each replacing the one before, and starts to send from the
  -- first byte; sessions that no answer is for are left alone.
  pub handle_responses_lem :
      (results : List InferenceResult) (stop : Bool) (fuel : ℕ) (fd : ℤ) (sv : TcpServer t)
      → sv.response_queue ≡ record { items = results; stop = stop }
      → length results < fuel
      → (find_session fd (handle_responses kernel fuel sv).sessions
          ≡ answered fd results (find_session fd sv.sessions))
        × ((handle_responses kernel fuel sv).response_queue ≡ record { items = []; stop = stop })
  unfolding handle_responses pop_immediate answered
  handle_responses_lem results stop zero fd sv e h = elim h [ ]
  handle_responses_lem [] stop (suc fuel) fd sv e h = (
    ap (λ q. find_session fd (polled fuel sv q).sessions) e
        ∙ answered_nil fd (find_session fd sv.sessions),
    ap (λ q. (polled fuel sv q).response_queue) e,
  )
  handle_responses_lem (res ∷ results) stop (suc fuel) fd sv e h =
      let sv' : TcpServer t = record sv {
        response_queue = record { items = results; stop = stop };
      } in
      let (found, queue) = respond_cases res fd sv' in
      let (rest, emptied) =
        handle_responses_lem results stop fuel fd (respond kernel res sv') queue (omega arith) in
      (
        ap (λ q. find_session fd (polled fuel sv q).sessions) e
            ∙ rest
            ∙ ap (λ o. answered fd results o) found
            ∙ answered_step fd res results (find_session fd sv.sessions),
        ap (λ q. (polled fuel sv q).response_queue) e ∙ emptied,
      )
