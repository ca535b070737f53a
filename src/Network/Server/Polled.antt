-- ===== src/Network/Server/Polled.antt =====
-- What the step before `poll` and `poll` itself, in src/TCPServer.cpp, do to the two tables.
use lumen_engine.Prelude.{
  ℕ, ◌+◌, ◌<◌, ◌≡◌, refl, sym, ap, ◌∙◌, Bool, true, false, not, ◌&&◌, List, [], ◌∷◌, arith, ℤ,
  ◌==ℤ◌, ==ℤ_iff,
}
use lumen_engine.Network.Kernel.{
  Events, poll_in, poll_out, poll_none, Pollfd, Revents, Kernel, open_fds, with_revents,
}
use lumen_engine.Network.Sessions.{Sessions, put_session}
use lumen_engine.Network.Server.{set_events, polled_events}
use lumen_engine.Network.Server.Count.{bit, count, has_session, put_keeps}
use lumen_engine.Network.Server.Tables.{listener, has_of_bit}

-- `poll` answers for every entry, and reports an entry as writable only if it asks for POLLOUT.
abbrev pub asks_out : Events → Bool
asks_out poll_out = true
asks_out poll_in = false
asks_out poll_none = false

abbrev pub Asked : List Pollfd → List Revents → Type 0
Asked [] rs = Unit
Asked (p ∷ ps) [] = ⊥
Asked (p ∷ ps) (r ∷ rs) = ((r.writable && not (asks_out p.events)) ≡ false) × Asked ps rs

abbrev pub AskedPoll : Kernel → Type 0
AskedPoll kernel = (n : ℕ) (l : List Pollfd) → Asked l (kernel.poll n l).1

pub with_revents-fds :
    (l : List Pollfd) (rs : List Revents) → open_fds (with_revents l rs) ≡ open_fds l
with_revents-fds [] rs = refl
with_revents-fds (p ∷ l) [] = refl
with_revents-fds (p ∷ l) (r ∷ rs) = ap (λ t. p.fd ∷ t) (with_revents-fds l rs)

pub set_events-fds :
    (kernel : Kernel) (n : ℕ) (l : List Pollfd) (sessions : Sessions)
    → open_fds (set_events kernel n l sessions).0 ≡ open_fds l
unfolding set_events
set_events-fds kernel n [] sessions = refl
set_events-fds kernel n (p ∷ l) sessions = ap (λ t. p.fd ∷ t) (set_events-fds kernel n l _)

pub set_events-keys :
    (kernel : Kernel) (n : ℕ) (l : List Pollfd) (sessions : Sessions) (key : ℤ)
    → ((fd : ℤ) → 0 < count fd (open_fds l) → has_session fd sessions ≡ true)
    → has_session key (set_events kernel n l sessions).1 ≡ has_session key sessions
unfolding set_events
set_events-keys kernel n [] sessions key all = refl
set_events-keys kernel n (p ∷ l) sessions key all =
    set_events-keys kernel n l (put_session p.fd _ sessions) key
      (λ fd found. put_keeps p.fd fd _ sessions (here p l all) ∙ all fd (omega arith))
    ∙ put_keeps p.fd key _ sessions (here p l all)
  where
    here :
        (p : Pollfd) (l : List Pollfd)
        → ((fd : ℤ) → 0 < count fd (open_fds (p ∷ l)) → has_session fd sessions ≡ true)
        → has_session p.fd sessions ≡ true
    here p l all = all p.fd (omega (arith, ap bit ((==ℤ_iff p.fd p.fd).1 refl)))

pub polled_events-fds :
    (kernel : Kernel) (l : List Pollfd) (n : ℕ) (sessions : Sessions)
    → open_fds (polled_events kernel l n sessions).0 ≡ open_fds l
polled_events-fds kernel [] n sessions = refl
polled_events-fds kernel (p ∷ l) n sessions =
    ap (λ t. p.fd ∷ t) (set_events-fds kernel n l sessions)

-- The descriptors after the first.
abbrev pub clients : List Pollfd → List ℤ
clients [] = []
clients (p ∷ l) = open_fds l

pub polled_events-keys :
    (kernel : Kernel) (l : List Pollfd) (n : ℕ) (sessions : Sessions)
    → ((fd : ℤ) → 0 < count fd (clients l) → has_session fd sessions ≡ true)
    → (key : ℤ) → has_session key (polled_events kernel l n sessions).1 ≡ has_session key sessions
polled_events-keys kernel [] n sessions all key = refl
polled_events-keys kernel (p ∷ l) n sessions all key = set_events-keys kernel n l sessions key all

pub silent : (b : Bool) (e : Events) → e ≡ poll_in → (b && not (asks_out e)) ≡ false → b ≡ false
silent true e in_only h = ap (λ e. true && not (asks_out e)) (sym in_only) ∙ h
silent false e in_only h = refl

pub clients-has :
    (l : List Pollfd) (sockfd fd : ℤ) (there : Bool)
    → (listener l).fd ≡ sockfd
    → count fd (open_fds l) ≡ bit (sockfd ==ℤ fd) + bit there
    → 0 < count fd (clients l)
    → there ≡ true
clients-has [] sockfd fd there first e found = elim found [ ]
clients-has (p ∷ l) sockfd fd there first e found =
    has_of_bit there (omega (arith, ap (λ z. bit (z ==ℤ fd)) first))

pub listener_after :
    (kernel : Kernel) (l : List Pollfd) (n : ℕ) (sessions : Sessions) (rs : List Revents)
    → Asked (polled_events kernel l n sessions).0 rs
    → (listener l).events ≡ poll_in
    → let p = listener (with_revents (polled_events kernel l n sessions).0 rs) in
      (p.fd ≡ (listener l).fd) × (p.events ≡ poll_in) × (p.revents.writable ≡ false)
listener_after kernel [] n sessions rs asked mask = (refl, mask, refl)
listener_after kernel (p ∷ l) n sessions [] asked mask = elim asked [ ]
listener_after kernel (p ∷ l) n sessions (r ∷ rs) asked mask =
    (refl, mask, silent r.writable p.events mask asked.0)
