-- ===== src/Server/Order.antt =====
-- Go's order of a map does not show in what `get` and `list` add up (server/api.go).
use dcounter.Base.Dict.{Dict}
use dcounter.Float.{Float}
use dcounter.Counter.{Counter}
use dcounter.Server.{Server}
