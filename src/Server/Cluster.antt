-- ===== src/Server/Cluster.antt =====
-- Two servers: a set at one, the reset at the other, and the change that comes back.
use dcounter.Base.{has_byte, ◌≡◌, true, false, Text, text_eq}
use dcounter.Base.Dict.{contains}
use dcounter.Float.{Float}
use dcounter.Counter.{Counter}
use dcounter.Wire.{newline}
use dcounter.Server.{Server}

-- What the names of two servers and of a counter of theirs meet: the servers are two, `a` knows `b`
-- as a member, and no name holds a newline.
pub record IsInCluster (a b : Server) (name : Text) : Type 0 where
  pub distinct : text_eq b.name a.name ≡ false
  pub known : contains b.name a.members ≡ true
  pub plain_member : has_byte newline b.name ≡ false
  pub plain_name : has_byte newline name ≡ false
