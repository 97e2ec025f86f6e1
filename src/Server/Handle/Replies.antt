-- ===== src/Server/Handle/Replies.antt =====
-- What the commands of a client do to the server.
use dcounter.Float.{Float}
use dcounter.Server.{Server}
