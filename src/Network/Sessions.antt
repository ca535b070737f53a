-- ===== src/Network/Sessions.antt =====
-- The table `sessions` of src/TCPServer.cpp.
use lumen_engine.Prelude.{ℕ, Option, none, some, List, [], ◌∷◌, if◌then◌else◌, ℤ, ◌==ℤ◌}
use lumen_engine.Network.Session.{ClientSession, new_session}
use lumen_engine.Network.Kernel.{Kernel}

-- `std::unordered_map<int, ClientSession>`
abbrev pub Sessions : Type 0
Sessions = List (ℤ × ClientSession)

unfoldable pub find_session : ℤ → Sessions → Option ClientSession
find_session fd [] = none
find_session fd ((key, s) ∷ rest) = if key ==ℤ fd then some s else find_session fd rest

unfoldable pub put_session : ℤ → ClientSession → Sessions → Sessions
put_session fd v [] = (fd, v) ∷ []
put_session fd v ((key, s) ∷ rest) =
    if key ==ℤ fd then (key, v) ∷ rest else (key, s) ∷ put_session fd v rest

unfoldable pub erase_session : ℤ → Sessions → Sessions
erase_session fd [] = []
erase_session fd ((key, s) ∷ rest) =
    if key ==ℤ fd then erase_session fd rest else (key, s) ∷ erase_session fd rest

-- `sessions[fd]` makes a session where there is none.
abbrev pub session_at : Kernel → ℕ → ℤ → Sessions → ClientSession
session_at kernel n fd sessions = elim (find_session fd sessions) [
  | none ↦ new_session (kernel.garbage_header n)
  | some s ↦ s
]
