-- ===== src/Network/Setup/Sockets.antt =====
-- src/TCPServer.cpp: what the constructor and the destructor leave open.
use lumen_engine.Prelude.{
  ◌≡◌, refl, ap, ◌∙◌, Bool, true, false, not, ◌&&◌, ◌||◌, Option, none, some, List, [], ◌∷◌, ◌++◌,
  if◌then◌else◌, if_elim, ℤ, pos, negsuc, append-nil, minus_one, ◌==ℤ◌, ==ℤ_iff,
}
use lumen_engine.Network.Kernel.{Pollfd, Revents, poll_in}
use lumen_engine.Network.Setup.{
  Address, SocketCall, opened, closed, Constructed, listening, thrown, getaddrinfo_failed,
  no_address, listen_failed, bind_first, listen_on, construct, destroy,
}

abbrev erase : ℤ → List ℤ → List ℤ
erase fd [] = []
erase fd (x ∷ xs) = if x ==ℤ fd then xs else x ∷ erase fd xs

-- The descriptors that are open after some calls.
unfoldable pub open_after : List SocketCall → List ℤ → List ℤ
open_after [] fds = fds
open_after (opened fd ∷ calls) fds = open_after calls (fd ∷ fds)
open_after (closed fd ∷ calls) fds = open_after calls (erase fd fds)

-- An address that the loop passes over, and one that it stays with.
abbrev pub IsRefused : Address → Type 0
IsRefused a = (a.socket ==ℤ minus_one) || not (a.gets_flags && a.sets_flags && a.binds) ≡ true

abbrev pub AllRefused : List Address → Type 0
AllRefused [] = Unit
AllRefused (a ∷ addresses) = IsRefused a × AllRefused addresses

abbrev pub IsBound : ℤ → Address → Type 0
IsBound fd a =
    (a.socket ≡ fd)
    × ((a.socket ==ℤ minus_one) ≡ false)
    × ((a.gets_flags && a.sets_flags && a.binds) ≡ true)

-- What the loop has found, and what it leaves open.
abbrev Ended : List Address → List SocketCall × Option ℤ → Type 0
Ended addresses (calls, none) = AllRefused addresses × ((fds : List ℤ) → open_after calls fds ≡ fds)
Ended addresses (calls, some fd) =
    ((before : List Address) × (a : Address) × (after : List Address) × (addresses
        ≡ before ++ (a ∷ after))
      × AllRefused before
      × IsBound fd a)
    × ((fds : List ℤ) → open_after calls fds ≡ fd ∷ fds)

erase_first : (fd : ℤ) (fds : List ℤ) → erase fd (fd ∷ fds) ≡ fds
erase_first fd fds = ap (λ b. if b then fds else fd ∷ erase fd fds) ((==ℤ_iff fd fd).1 refl)

Ended-refused :
    (a : Address) (addresses : List Address) (calls more : List SocketCall) (o : Option ℤ)
    → IsRefused a
    → ((fds : List ℤ) → open_after more fds ≡ open_after calls fds)
    → Ended addresses (calls, o)
    → Ended (a ∷ addresses) (more, o)
Ended-refused a addresses calls more none refused same (all, h) =
    ((refused, all), λ fds. same fds ∙ h fds)
Ended-refused a addresses calls more (some fd) refused same ((before, b, after, e, all, bound), h) =
    ((a ∷ before, b, after, ap (λ l. a ∷ l) e, (refused, all), bound), λ fds. same fds ∙ h fds)

bind_first-Ended : (addresses : List Address) → Ended addresses (bind_first addresses)
unfolding bind_first open_after
bind_first-Ended [] = (tt, λ fds. refl)
bind_first-Ended (a ∷ addresses) =
    let rest = bind_first addresses in
    if_elim (Ended (a ∷ addresses)) (a.socket ==ℤ minus_one)
      (λ no_socket.
        Ended-refused a addresses rest.0 rest.0 rest.1 (rw no_socket refl) (λ fds. refl)
          (bind_first-Ended addresses))
      (λ socket.
        if_elim (Ended (a ∷ addresses)) (a.gets_flags && a.sets_flags && a.binds)
          (λ bound. (([], a, addresses, refl, tt, (refl, socket, bound)), λ fds. refl))
          (λ unbound.
            Ended-refused a addresses rest.0 (opened a.socket ∷ closed a.socket ∷ rest.0) rest.1
              (rw socket (rw unbound refl))
              (λ fds. ap (open_after rest.0) (erase_first a.socket fds))
              (bind_first-Ended addresses)))

open_after-append :
    (calls more : List SocketCall) (fds : List ℤ)
    → open_after (calls ++ more) fds ≡ open_after more (open_after calls fds)
unfolding open_after
open_after-append [] more fds = refl
open_after-append (opened fd ∷ calls) more fds = open_after-append calls more (fd ∷ fds)
open_after-append (closed fd ∷ calls) more fds = open_after-append calls more (erase fd fds)

-- The table for `poll` that the constructor leaves.
abbrev pub listener : ℤ → Revents → List Pollfd
listener fd garbage = record { fd = fd; events = poll_in; revents = garbage } ∷ []

-- What the destructor leaves open: it passes over a negative descriptor.
abbrev pub not_closed : ℤ → List ℤ
not_closed (pos n) = []
not_closed (negsuc n) = negsuc n ∷ []

-- What each end of the constructor means; `garbage` is what the new entry's `revents` hold.
abbrev pub Outcome :
    Option (List Address) → Bool → (garbage : Revents) → List SocketCall × Constructed → Type 0
Outcome addresses listens garbage (calls, thrown getaddrinfo_failed) =
    (addresses ≡ none) × (calls ≡ [])
Outcome addresses listens garbage (calls, thrown no_address) =
    ((l : List Address) × (addresses ≡ some l) × AllRefused l) × (open_after calls [] ≡ [])
Outcome addresses listens garbage (calls, thrown listen_failed) =
    (listens ≡ false) × (open_after calls [] ≡ [])
Outcome addresses listens garbage (calls, listening fd) =
    (listens ≡ true)
    × ((before : List Address) × (a : Address) × (after : List Address) × (addresses
          ≡ some (before ++ (a ∷ after)))
        × AllRefused before
        × IsBound fd a)
    × (open_after calls [] ≡ fd ∷ [])
    × (open_after (calls ++ destroy (listener fd garbage)) [] ≡ not_closed fd)

closed_again :
    (calls : List SocketCall) (fd : ℤ)
    → ((fds : List ℤ) → open_after calls fds ≡ fd ∷ fds)
    → open_after (calls ++ (closed fd ∷ [])) [] ≡ []
unfolding open_after
closed_again calls fd h =
    open_after-append calls (closed fd ∷ []) [] ∙ ap (erase fd) (h []) ∙ erase_first fd []

destroyed :
    (calls : List SocketCall) (fd : ℤ) (garbage : Revents)
    → ((fds : List ℤ) → open_after calls fds ≡ fd ∷ fds)
    → open_after (calls ++ destroy (listener fd garbage)) [] ≡ not_closed fd
unfolding destroy
destroyed calls (pos n) garbage h = closed_again calls (pos n) h
destroyed calls (negsuc n) garbage h = ap (λ l. open_after l []) (append-nil calls) ∙ h []

Outcome-listen_on :
    (addresses : List Address) (listens : Bool) (garbage : Revents)
    (found : List SocketCall × Option ℤ)
    → Ended addresses found
    → Outcome (some addresses) listens garbage (listen_on listens found)
unfolding listen_on
Outcome-listen_on addresses listens garbage (calls, none) (all, h) = ((addresses, refl, all), h [])
Outcome-listen_on addresses true garbage (calls, some fd) ((before, a, after, e, all, bound), h) =
    (refl, (before, a, after, ap some e, all, bound), h [], destroyed calls fd garbage h)
Outcome-listen_on addresses false garbage (calls, some fd) (split, h) =
    (refl, closed_again calls fd h)

-- The constructor, whatever the system calls answer. It throws if there are no addresses, if every
-- address is refused, or if `listen` fails on the first address that is not, and every socket that
-- it has opened is then closed again. Otherwise it listens on the socket of the first address that
-- is not refused, that socket is the only one it leaves open, and if its descriptor is not negative
-- the destructor of the new server closes it.
pub construct-Outcome :
    (addresses : Option (List Address)) (listens : Bool) (garbage : Revents)
    → Outcome addresses listens garbage (construct addresses listens)
unfolding construct
construct-Outcome none listens garbage = (refl, refl)
construct-Outcome (some addresses) listens garbage =
    Outcome-listen_on addresses listens garbage (bind_first addresses) (bind_first-Ended addresses)
