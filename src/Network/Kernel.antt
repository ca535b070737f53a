-- ===== src/Network/Kernel.antt =====
-- The system calls of src/TCPServer.cpp, and its table for `poll`.
use lumen_engine.Prelude.{ℕ, Bool, false, List, [], ◌∷◌, set, ℤ, minus_one}
use lumen_engine.Network.Session.{Recv}

-- What the `POLLIN` and `POLLOUT` bits ask for, and what `poll` reports.
pub data Events : Type 0 where
  poll_in : Events
  poll_out : Events
  poll_none : Events

pub record Revents : Type 0 where
  pub readable : Bool
  pub writable : Bool

pub record Pollfd : Type 0 where
  pub fd : ℤ
  pub events : Events
  pub revents : Revents

-- What `send` returned: a count, or -1 with `errno`.
pub data Sent : Type 0 where
  sent : ℕ → Sent
  would_block : Sent
  failed : Sent

-- The system calls, and what uninitialised memory holds. The first argument numbers the calls, so
-- that nothing is said of one answer by another; `accept` is given the descriptors that are open.
pub record Kernel : Type 0 where
  pub accept : ℕ → List ℤ → ℤ
  pub recv : ℕ → ℤ → ℕ → Recv
  pub send : ℕ → ℤ → List ℕ → Sent
  pub poll : ℕ → List Pollfd → ℤ × List Revents
  pub now : ℕ → ℕ
  pub garbage_header : ℕ → List ℕ
  pub garbage_revents : ℕ → Revents

abbrev pub no_pollfd : Pollfd
no_pollfd = record {
  fd = minus_one;
  events = poll_none;
  revents = record { readable = false; writable = false };
}

-- `pollfds[i] = pollfds.back(); pollfds.pop_back();`
unfoldable pub last_pollfd : List Pollfd → Pollfd
last_pollfd [] = no_pollfd
last_pollfd (p ∷ []) = p
last_pollfd (p ∷ q ∷ rest) = last_pollfd (q ∷ rest)

unfoldable pub drop_last : List Pollfd → List Pollfd
drop_last [] = []
drop_last (p ∷ []) = []
drop_last (p ∷ q ∷ rest) = p ∷ drop_last (q ∷ rest)

unfoldable pub remove_pollfd : List Pollfd → ℕ → List Pollfd
unfolding last_pollfd drop_last
remove_pollfd l i = drop_last (set l i (last_pollfd l))

abbrev pub open_fds : List Pollfd → List ℤ
open_fds [] = []
open_fds (p ∷ rest) = p.fd ∷ open_fds rest

abbrev pub with_revents : List Pollfd → List Revents → List Pollfd
with_revents [] rs = []
with_revents (p ∷ ps) [] = p ∷ ps
with_revents (p ∷ ps) (r ∷ rs) = record p { revents = r } ∷ with_revents ps rs
