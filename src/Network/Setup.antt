-- ===== src/Network/Setup.antt =====
-- The constructor and the destructor of `TCPServer` in src/TCPServer.cpp: which sockets they open
-- and close.
pub mod Sockets
mod Tests
use lumen_engine.Prelude.{
  ℕ, ◌≡◌, refl, sym, ap, ◌∙◌, Bool, true, false, not, ◌&&◌, ◌||◌, Bool-cases, inl, inr, Option,
  none, some, List, [], ◌∷◌, ◌++◌, append_assoc, if◌then◌else◌, if_elim, ℤ, pos, negsuc, minus_one,
  ◌==ℤ◌, ==ℤ_iff, arith,
}
use lumen_engine.Network.Kernel.{Pollfd, Revents, poll_in, open_fds}

-- What the system calls answer for one address that `getaddrinfo` gave.
pub record Address : Type 0 where
  pub socket : ℤ  -- a descriptor, or -1
  pub gets_flags : Bool
  pub sets_flags : Bool
  pub binds : Bool

pub data SocketCall : Type 0 where
  opened : ℤ → SocketCall
  closed : ℤ → SocketCall

-- `ServerException`, by the message that it is given.
pub data ServerException : Type 0 where
  getaddrinfo_failed : ServerException
  no_address : ServerException
  listen_failed : ServerException

pub data Constructed : Type 0 where
  listening : ℤ → Constructed
  thrown : ServerException → Constructed

-- The `for` over the addresses: the calls, and the descriptor that it ends with, or none.
unfoldable pub bind_first : List Address → List SocketCall × Option ℤ
bind_first [] = ([], none)
bind_first (a ∷ addresses) =
    let rest = bind_first addresses in
    if a.socket ==ℤ minus_one
    then rest
    else if a.gets_flags && a.sets_flags && a.binds
    then (opened a.socket ∷ [], some a.socket)
    else (opened a.socket ∷ closed a.socket ∷ rest.0, rest.1)

-- The end of the constructor, on the descriptor of the loop.
unfoldable pub listen_on :
    (listens : Bool) → List SocketCall × Option ℤ → List SocketCall × Constructed
listen_on listens (calls, none) = (calls, thrown no_address)
listen_on listens (calls, some fd) =
    if listens then (calls, listening fd) else (calls ++ (closed fd ∷ []), thrown listen_failed)

-- `addresses` is what `getaddrinfo` gave, if it gave anything.
unfoldable pub construct :
    (addresses : Option (List Address)) (listens : Bool) → List SocketCall × Constructed
construct none listens = ([], thrown getaddrinfo_failed)
construct (some addresses) listens = listen_on listens (bind_first addresses)

-- `if (pfd.fd >= 0) close(pfd.fd)`
unfoldable pub destroy : List Pollfd → List SocketCall
destroy [] = []
destroy (p ∷ rest) = elim p.fd [ pos n ↦ closed (pos n) ∷ destroy rest | negsuc n ↦ destroy rest ]
