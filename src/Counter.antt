-- ===== src/Counter.antt =====
-- `Counter` of server/counter.go, and what the server computes of one counter: its value, an
-- increment, a set, and the merge that readChange and MergeRemoteState share (server/server.go,
-- server/memberlist.go, server/api.go).
pub mod Merge
pub mod Growth
use dcounter.Base.{ℕ, ◌+◌, ◌-◌, ◌%◌, ◌^◌, Bool, Option, none, some, ltb, if◌then◌else◌}
use dcounter.Float.{Float, zero_float, ◌+F◌, ◌-F◌, neg, gt}

-- `Revision` is a uint32, a number below 2 ^ 32.
pub record Counter : Type 0 where
  pub up : Float
  pub down : Float
  pub revision : ℕ

-- `&Counter{}`
abbrev pub empty_counter : Counter
empty_counter = record { up = zero_float; down = zero_float; revision = 0 }

-- `c.Up - c.Down`
unfoldable pub value : Counter → Float
value c = c.up -F c.down

-- `Revision += 1` on a uint32.
unfoldable pub next_revision : ℕ → ℕ
next_revision r = (r + 1) % 2 ^ 32

-- The branch of `inc`: a positive `diff` goes to `Up`, any other to `Down`.
unfoldable pub inc_counter : Float → Counter → Counter
inc_counter diff c =
    if gt diff zero_float
    then record c { up = c.up +F diff }
    else record c { down = c.down -F diff }

-- The head of `set`: what a value is as an up and a down.
unfoldable pub up_of : Float → Float
up_of v = if gt v zero_float then v else zero_float

unfoldable pub down_of : Float → Float
down_of v = if gt v zero_float then zero_float else neg v

-- The counter that `set` leaves behind: of the old one if there is one.
unfoldable pub set_counter : Float → Option Counter → Counter
unfolding up_of down_of
set_counter v none = record { up = up_of v; down = down_of v; revision = 0 }
set_counter v (some c) = record {
  up = up_of v;
  down = down_of v;
  revision = next_revision c.revision;
}

-- The body of readReset's `if`: what `reset` has seen is taken off.
unfoldable pub reset_counter : Counter → Counter → Counter
reset_counter c oc = record {
  up = oc.up -F c.up;
  down = oc.down -F c.down;
  revision = next_revision oc.revision;
}

-- `if new > old { old = new }`
unfoldable pub raise_to : Float → Float → Float
raise_to old new = if gt new old then new else old

-- `!ok || c.Revision > oc.Revision` stores `c`; otherwise `oc` is raised to it.
unfoldable pub merge : Option Counter → Counter → Counter
unfolding raise_to
merge none c = c
merge (some oc) c =
    if ltb oc.revision c.revision
    then c
    else record oc { up = raise_to oc.up c.up; down = raise_to oc.down c.down }
