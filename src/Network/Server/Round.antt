-- ===== src/Network/Server/Round.antt =====
-- Rounds of `run` in src/TCPServer.cpp, and the two tables.
use lumen_engine.Network.Kernel.{Kernel}
use lumen_engine.Network.Server.Tables.{Tables}
