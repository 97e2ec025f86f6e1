-- ===== src/Tests/Counters.antt =====
-- Counters at concrete values.
use dcounter.Base.{ℕ, ◌^◌, ◌<◌, ◌≡◌, ◌≢◌, refl, true, false, some, arith}
use dcounter.Base.Int.{pos, negsuc, ◌+ℤ◌, neg_ℤ}
use dcounter.Float.{Float, fin, ◌+F◌, ◌-F◌, neg, gt}
use dcounter.Counter.{Counter, merge, inc_counter, reset_counter, next_revision}
use dcounter.Counter.Merge.{AreNumbers, merge_join, merge_stale}
use dcounter.Counter.Growth.{IsFiniteCounter, IsBelow}
use dcounter.Wire.RoundTrip.{IsWireable}
use dcounter.Tests.Rep.{test_rep}

abbrev pub whole : ℕ → Float
whole n = fin (pos n)

abbrev pub counter : ℕ → ℕ → ℕ → Counter
counter up down revision = record { up = whole up; down = whole down; revision = revision }

pub counter-numbers : (u d r : ℕ) → AreNumbers (counter u d r)
counter-numbers u d r = record { up_number = tt; down_number = tt }

pub counter-finite : (u d r : ℕ) → IsFiniteCounter (counter u d r)
counter-finite u d r = record { up_finite = tt; down_finite = tt }

merge_join_example :
    (merge (some (counter 5 1 2)) (counter 3 4 2) ≡ merge (some (counter 3 4 2)) (counter 5 1 2))
    × (merge (some (merge (some (counter 5 1 2)) (counter 3 4 2))) (counter 7 0 2)
        ≡ merge (some (counter 5 1 2)) (merge (some (counter 3 4 2)) (counter 7 0 2)))
    × (merge (some (merge (some (counter 5 1 2)) (counter 3 4 2))) (counter 3 4 2)
        ≡ merge (some (counter 5 1 2)) (counter 3 4 2))
merge_join_example =
    merge_join (counter 5 1 2) (counter 3 4 2) (counter 7 0 2) (counter-numbers 5 1 2)
      (counter-numbers 3 4 2) (counter-numbers 7 0 2) refl refl

-- A counter that was set to 1 at revision 1, and a late change of revision 0 at 100.
merge_stale_example :
    ((merge (some (counter 1 0 1)) (counter 100 0 0)).up ≡ whole 100)
    × ((merge (some (counter 1 0 1)) (counter 100 0 0)).revision ≡ 1)
    × (merge (some (counter 100 0 0)) (counter 1 0 1) ≡ counter 1 0 1)
    × (merge (some (counter 1 0 1)) (counter 100 0 0)
        ≢ merge (some (counter 100 0 0)) (counter 1 0 1))
merge_stale_example =
    merge_stale (counter 1 0 1) (counter 100 0 0) (omega arith) (unfold gt in refl)

pub below :
    (u d u' d' r : ℕ)
    → gt (whole u) (whole u') ≡ false
    → gt (whole d) (whole d') ≡ false
    → IsBelow (counter u d r) (counter u' d' r)
below u d u' d' r h k = record {
  same_revision = refl;
  up_below = h;
  down_below = k;
  up_number = tt;
  down_number = tt;
}

pub wireable :
    (u d r : ℕ)
    → test_rep.fits (whole u) ≡ true
    → test_rep.fits (whole d) ≡ true
    → r < 2 ^ 32
    → IsWireable (counter u d r)
wireable u d r hu hd hr = record { up_fits = hu; down_fits = hd; revision_fits = hr }

inc_down : inc_counter (fin (negsuc 2)) (counter 5 1 0) ≡ counter 5 4 0
unfolding inc_counter gt ◌-F◌ ◌+F◌ neg neg_ℤ ◌+ℤ◌
inc_down = refl

reset_runs : reset_counter (counter 5 1 0) (counter 8 1 0) ≡ counter 3 0 1
unfolding reset_counter next_revision ◌-F◌ ◌+F◌ neg neg_ℤ ◌+ℤ◌
reset_runs = refl
