-- ===== src/Network/Exact.antt =====
-- A cluster whose clients increment counts exactly: what `get` answers in the end is the sum of all
-- increments (server/api.go, server/memberlist.go, server/server.go).
use dcounter.Base.{List}
use dcounter.Network.{Network}
