-- ===== src/Tests/Servers.antt =====
-- Servers at concrete states.
use dcounter.Base.{ℕ, ◌≡◌, refl, true, false, Option, none, some, [], ◌∷◌, Text, text_eq, codes}
use dcounter.Base.Int.{pos, ◌+ℤ◌, neg_ℤ}
use dcounter.Base.Dict.{lookup, IsMap}
use dcounter.Base.Result.{Error, eof}
use dcounter.Float.{◌+F◌, ◌-F◌, neg}
use dcounter.Counter.{value}
use dcounter.Server.{Server, State, Node}
use dcounter.Server.Local.{get, send_resets}
use dcounter.Server.Lifecycle.{new_server, start}
use dcounter.Server.Exchange.{HoldsMaps}
use dcounter.Tests.Rep.{test_rep}
use dcounter.Tests.Counters.{whole, counter}

abbrev pub a : Text
a = codes "a"

abbrev pub b : Text
b = codes "b"

abbrev pub n : Text
n = codes "n"

abbrev pub alive : ℕ → State
alive t = record { active = 1; when = pos t }

-- Server `a`, which has seen that `b` counts 3.
abbrev pub server_a : Server
server_a = record {
  name = a;
  leaving = 0;
  stopped = false;
  consistent = true;
  replicas = (a, (n, counter 5 1 0) ∷ []) ∷ (b, (n, counter 3 0 0) ∷ []) ∷ [];
  changes = [];
  members = (a, alive 1) ∷ (b, alive 2) ∷ [];
  reconnects = [];
  checks = 0;
}

-- Server `b`, which has counted on to 4.
abbrev pub server_b : Server
server_b = record {
  name = b;
  leaving = 0;
  stopped = false;
  consistent = true;
  replicas = (b, (n, counter 4 0 0) ∷ []) ∷ [];
  changes = [];
  members = (a, alive 1) ∷ (b, alive 2) ∷ [];
  reconnects = [];
  checks = 0;
}

abbrev pub node_b : Node
node_b = record { name = b; addr = codes "10.0.0.2"; port = codes "9373"; meta = 0 ∷ [] }

-- The first get of `a`, an increment by 2, and a set to 9.
get_a : get n server_a ≡ (whole 7, true)
unfolding get value ◌-F◌ ◌+F◌ neg neg_ℤ ◌+ℤ◌ lookup text_eq
get_a = refl

abbrev refuse : Node → Text → Option Error
refuse _ _ = some eof

refused : send_resets refuse n server_a (node_b ∷ []) ≡ eof ∷ []
unfolding send_resets
refused = refl

pub two_members : IsMap server_a.members
two_members = unfold lookup text_eq in (refl, (refl, tt))

pub two_maps : IsMap server_a.replicas
two_maps = unfold lookup text_eq in (refl, (refl, tt))

pub a_maps : HoldsMaps server_a
a_maps = record {
  members_map = two_members;
  replicas_map = two_maps;
  counters_maps = unfold lookup in ((refl, tt), ((refl, tt), tt));
}

pub b_maps : HoldsMaps server_b
b_maps = record {
  members_map = unfold lookup text_eq in (refl, (refl, tt));
  replicas_map = unfold lookup in (refl, tt);
  counters_maps = unfold lookup in ((refl, tt), tt);
}

abbrev pub started_a : Server
started_a = (start none none (pos 1) (new_server a)).0
