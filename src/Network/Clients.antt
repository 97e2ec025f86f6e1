-- ===== src/Network/Clients.antt =====
-- What clients of a cluster read in the end (api/api.go, server/api.go).
use dcounter.Base.{◌≡◌, Bool, true, none, some, [], Text}
use dcounter.Base.Int.{ℤ}
use dcounter.Float.{Float}
use dcounter.Wire.{FloatRep}
use dcounter.Server.Local
use dcounter.Server.Handle.{Outside}
use dcounter.Api.Methods
use dcounter.Api.EndToEnd.{direct_net}
use dcounter.Network.{Network}

module _ ⦃rep : FloatRep⦄ (out : Outside) (now : ℤ) (at : Text → ℤ) where
  -- The answer to a Get, with the consistency of the server, and nothing left to read.
  abbrev pub Answers : Network → Text → Bool → Text → Float → Type 0
  Answers net i c name total =
      let s = net.servers i in
      Methods.get (direct_net out) c (s, []) name
      ≡ (some ((total, s.consistent), none), true, (s, []))
