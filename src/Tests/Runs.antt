-- ===== src/Tests/Runs.antt =====
-- A server from its start on, at concrete steps, and what is loaded from a file.
use dcounter.Base.{ℕ, none, [], ◌∷◌, ◌++◌, Text, length, take, drop}
use dcounter.Base.Int.{pos}
use dcounter.Base.Result.{Result, eof, ok, err}
use dcounter.Float.{Float, fin}
use dcounter.Server.{Server, Counters}
use dcounter.Server.Lifecycle.{load, join}
use dcounter.Tests.Rep.{test_rep}
use dcounter.Tests.Counters.{counter}
use dcounter.Tests.Servers.{b, n, server_b, started_a}

-- Server `a` once it has loaded what `b` had saved, and has joined a cluster.
abbrev joined_a : Server
joined_a = (join none (pos 2) (load none server_b.replicas none started_a).0).0

-- A coding of files with one counter, whose fields are whole and not negative.
abbrev encode_fields : Text → Text → Float → Float → ℕ → Result Text
encode_fields member name (fin (pos u)) (fin (pos d)) r =
    ok (u ∷ d ∷ r ∷ length member ∷ member ++ name)
encode_fields _ _ _ _ _ = err eof

abbrev encode_one : Counters → Result Text
encode_one ((member, (name, c) ∷ []) ∷ []) = encode_fields member name c.up c.down c.revision
encode_one _ = err eof

abbrev decode_one : Text → Counters
decode_one (u ∷ d ∷ r ∷ l ∷ t) = (take l t, (drop l t, counter u d r) ∷ []) ∷ []
decode_one _ = []

abbrev saved_b : Text
saved_b = 4 ∷ 0 ∷ 0 ∷ 1 ∷ b ++ n
