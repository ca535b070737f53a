-- ===== src/Network/Setup/Tests.antt =====
-- src/TCPServer.cpp: the second of three addresses can be bound.
use lumen_engine.Prelude.{ℕ, Bool, true, false, some, List, [], ◌∷◌, pos}
use lumen_engine.Network.Kernel.{Revents}
use lumen_engine.Network.Setup.{Address, construct}
use lumen_engine.Network.Setup.Sockets.{Outcome, construct-Outcome}

abbrev address : ℕ → Bool → Address
address n binds = record { socket = pos n; gets_flags = true; sets_flags = true; binds = binds }

abbrev addresses : List Address
addresses = address 3 false ∷ address 3 true ∷ address 4 true ∷ []

abbrev garbage : Revents
garbage = record { readable = true; writable = false }

construct-Outcome_example : Outcome (some addresses) true garbage (construct (some addresses) true)
construct-Outcome_example = construct-Outcome (some addresses) true garbage
