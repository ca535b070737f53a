-- ===== src/Network/Server/Tables.antt =====
-- The list for `poll` and the table of sessions of src/TCPServer.cpp, together.
use lumen_engine.Prelude.{
  ℕ, zero, suc, ◌+◌, ◌<◌, ◌≡◌, ◌≢◌, inl, inr, refl, sym, ap, ap₂, ◌∙◌, subst, Bool, true, false,
  Bool-cases, List, [], ◌∷◌, arith, length, get_or, ℤ, ◌==ℤ◌, ==ℤ_iff,
}
use lumen_engine.Queue.Interface.{ITaskQueue}
use lumen_engine.Core.Types.{InferenceTask}
use lumen_engine.Network.Kernel.{poll_in, Pollfd, no_pollfd, open_fds}
use lumen_engine.Network.Server.{TcpServer}
use lumen_engine.Network.Server.Count.{bit, count, has_session}

abbrev pub listener : List Pollfd → Pollfd
listener l = get_or l 0 no_pollfd

-- The first entry is the listening socket, which asks for POLLIN only. A descriptor stands in the
-- list exactly once if it is that socket or has a session, and otherwise not at all; the listening
-- socket has no session.
pub record Tables {t : ITaskQueue InferenceTask} (sv : TcpServer t) : Type 0 where
  pub first : (listener sv.pollfds).fd ≡ sv.sockfd
  pub listens : (listener sv.pollfds).events ≡ poll_in
  pub balance :
      (fd : ℤ)
      → count fd (open_fds sv.pollfds) ≡ bit (sv.sockfd ==ℤ fd) + bit (has_session fd sv.sessions)
  pub apart : has_session sv.sockfd sv.sessions ≡ false

self : (a : ℤ) → (a ==ℤ a) ≡ true
self a = (==ℤ_iff a a).1 refl

pub some_pollfd :
    {t : ITaskQueue InferenceTask} (sv : TcpServer t) → Tables sv → 0 < length sv.pollfds
some_pollfd sv h = go sv.pollfds (h.balance sv.sockfd)
  where
    go :
        (l : List Pollfd)
        → count sv.sockfd (open_fds l)
          ≡ bit (sv.sockfd ==ℤ sv.sockfd) + bit (has_session sv.sockfd sv.sessions)
        → 0 < length l
    go [] e = absurd (omega (arith, e, ap bit (self sv.sockfd)))
    go (p ∷ l) e = omega arith

count_found :
    (l : List Pollfd) (i : ℕ) → i < length l → 0 < count (get_or l i no_pollfd).fd (open_fds l)
count_found [] i h = elim h [ ]
count_found (p ∷ l) zero h = omega (arith, ap bit (self p.fd))
count_found (p ∷ l) (suc i) h = omega (arith, count_found l i (omega arith))

count_twice :
    (l : List Pollfd) (i : ℕ)
    → 0 < i
    → i < length l
    → (get_or l i no_pollfd).fd ≡ (listener l).fd
    → 1 < count (listener l).fd (open_fds l)
count_twice [] i some_i h e = elim h [ ]
count_twice (p ∷ l) zero some_i h e = elim some_i [ ]
count_twice (p ∷ l) (suc i) some_i h e = omega (
  arith,
  ap bit (self p.fd),
  subst (λ fd. 0 < count fd (open_fds l)) e (count_found l i (omega arith)),
)

pub has_of_bit : (b : Bool) → 0 < bit b → b ≡ true
has_of_bit true h = refl
has_of_bit false h = elim h [ ]

pub off_of_bit : (b : Bool) → bit b ≡ 0 → b ≡ false
off_of_bit true h = absurd (omega arith)
off_of_bit false h = refl

unequal : (a b : ℤ) → a ≢ b → (a ==ℤ b) ≡ false
unequal a b ne = elim (Bool-cases (a ==ℤ b)) [ inl e ↦ absurd (ne ((==ℤ_iff a b).0 e)) | inr e ↦ e ]

pub turned : (a b : ℤ) → (a ==ℤ b) ≡ false → (b ==ℤ a) ≡ false
turned a b e = unequal b a (λ same. off (sym ((==ℤ_iff a b).1 (sym same)) ∙ e))
  where
    off : ¬ (true ≡ false)
    off h = absurd (omega (arith, ap bit h))

module _ {t : ITaskQueue InferenceTask} where
  -- An entry that is not the listening socket has a session.
  pub entry-has_session :
      (sv : TcpServer t) (i : ℕ)
      → Tables sv
      → i < length sv.pollfds
      → ((get_or sv.pollfds i no_pollfd).fd ==ℤ sv.sockfd) ≡ false
      → has_session (get_or sv.pollfds i no_pollfd).fd sv.sessions ≡ true
  entry-has_session sv i h inside other =
      let fd = (get_or sv.pollfds i no_pollfd).fd in
      has_of_bit (has_session fd sv.sessions) (
        omega (
          arith,
          count_found sv.pollfds i inside,
          h.balance fd,
          ap bit (turned fd sv.sockfd other),
        ))

  pub other_entry :
      (sv : TcpServer t) (i : ℕ)
      → Tables sv
      → 0 < i
      → i < length sv.pollfds
      → ((get_or sv.pollfds i no_pollfd).fd ==ℤ sv.sockfd) ≡ false
  other_entry sv i h some_i inside = unequal (get_or sv.pollfds i no_pollfd).fd sv.sockfd (λ same.
      absurd (
        omega (
          arith,
          count_twice sv.pollfds i some_i inside (same ∙ sym h.first),
          h.balance (listener sv.pollfds).fd,
          ap (λ fd. bit (sv.sockfd ==ℤ fd)) h.first,
          ap bit (self sv.sockfd),
          ap (λ fd. bit (has_session fd sv.sessions)) h.first,
          ap bit h.apart,
        )))

  -- A step that keeps the list, and which descriptors have a session.
  pub same_keys :
      (sv sv' : TcpServer t)
      → Tables sv
      → sv'.pollfds ≡ sv.pollfds
      → sv'.sockfd ≡ sv.sockfd
      → ((fd : ℤ) → has_session fd sv'.sessions ≡ has_session fd sv.sessions)
      → Tables sv'
  same_keys sv sv' h l k has = record {
    first = ap (λ l. (listener l).fd) l ∙ h.first ∙ sym k;
    listens = ap (λ l. (listener l).events) l ∙ h.listens;
    balance = λ fd.
        ap (λ l. count fd (open_fds l)) l
        ∙ h.balance fd
        ∙ ap₂ (λ a b. bit (a ==ℤ fd) + bit b) (sym k) (sym (has fd));
    apart = has sv'.sockfd ∙ ap (λ fd. has_session fd sv.sessions) k ∙ h.apart;
  }
