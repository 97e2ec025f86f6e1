-- ===== src/Tests/Saves.antt =====
-- The `server` command up to its end, at concrete inputs.
use dcounter.Base.{◌≡◌, refl, true, none, [], ◌∷◌, Text, codes, text_eq}
use dcounter.Base.Result.{ok}
use dcounter.Server.Lifecycle.{save_file}
use dcounter.Cli.Launch.Served.{Disk, Served, begin, save_round}
use dcounter.Tests.Rep.{test_rep}
use dcounter.Tests.Commands.{options, launched}

abbrev disk : Disk
disk = record {
  created = none;
  encode = λ _. ok (codes "{}");
  write = λ t. (t, none);
  closed = none;
}

abbrev first : Text
first = codes "old"

-- The command sleeps, and saves once its interval is over.
abbrev asleep : Served
asleep = begin options 0 first (codes "[ERR] EOF" ∷ []) launched

abbrev awake : Served
awake = save_round options 60_000_000_000 disk (save_round options 5 disk asleep)

json_written : awake.file ≡ codes "{}\n"
unfolding begin save_round save_file text_eq
json_written = refl

abbrev closed_down : Served
closed_down = record awake {
  server = record awake.server { stopped = true; leaving = 1 };
  wakes = none;
  log = awake.log;
}
