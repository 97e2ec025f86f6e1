-- ===== src/Tests/Settings.antt =====
-- A `set` among other handlers, and two changes of one counter, at concrete servers.
use mathlib.Core.Path.{subst}
use dcounter.Base.{has_byte, sym, true, arith, ◌≡◌, refl, none, [], ◌∷◌, Text}
use dcounter.Base.Int.{◌+ℤ◌}
use dcounter.Float.{◌+F◌, gt}
use dcounter.Counter.{inc_counter}
use dcounter.Wire.{change_bytes}
use dcounter.Wire.RoundTrip.{IsWireable}
use dcounter.Server.Messages.{notify_msg}
use dcounter.Server.Queue.{invalidated_adds_nothing}
use dcounter.Server.{Server, lookup_counter, new_change, invalidates, change_payload}
use dcounter.Server.Setting.{Setting, begin_set, set_turn}
use dcounter.Tests.Rep.{test_rep}
use dcounter.Tests.Counters.{whole, counter, counter-finite, wireable}
use dcounter.Tests.Servers.{b, n, node_b, server_a, started_a}
use dcounter.Tests.Networks.{counted_a}

-- An increment of `n` comes after the turn for `b`.
abbrev overtaken : Setting
overtaken = record (set_turn n (λ _ _. none) (begin_set (node_b ∷ []) started_a)) {
  server = counted_a;
}

five : inc_counter (whole 2) (counter 3 0 0) ≡ counter 5 0 0
unfolding inc_counter gt ◌+F◌ ◌+ℤ◌
five = refl

invalidated_adds_nothing_example :
    let older = new_change n (change_bytes b n (counter 3 0 0)) in
    let newer = new_change n (change_bytes b n (inc_counter (whole 2) (counter 3 0 0))) in
    (invalidates newer older ≡ true)
    × ((m name : Text)
        → lookup_counter m name
            (notify_msg
              (change_payload newer)
              (notify_msg (change_payload older) server_a)).replicas
          ≡ lookup_counter m name (notify_msg (change_payload newer) server_a).replicas)
invalidated_adds_nothing_example =
    invalidated_adds_nothing b n (counter 3 0 0) (whole 2) server_a (unfold has_byte in refl)
      (unfold has_byte in refl) tt (counter-finite 3 0 0) (wireable 3 0 0 refl refl (omega arith))
      (subst IsWireable (sym five) (wireable 5 0 0 refl refl (omega arith)))
