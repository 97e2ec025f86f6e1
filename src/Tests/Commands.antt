-- ===== src/Tests/Commands.antt =====
-- The command line and the addresses at concrete inputs.
use dcounter.Base.{◌*◌, ◌≡◌, ◌⊎◌, refl, true, none, some, List, [], ◌∷◌, ◌++◌, Text, text_eq, codes}
use dcounter.Base.Int.{pos}
use dcounter.Base.Result.{Result, ok, err, eof}
use dcounter.Float.{Float, zero_float}
use dcounter.Wire.{newline}
use dcounter.Server.{Server}
use dcounter.Server.Run.{Reach}
use dcounter.Server.Lifecycle.{new_server, start, join}
use dcounter.Server.Address.{base_config, Config, second, split_host_port, net_split}
use dcounter.Server.Address.Ports.{addressed}
use dcounter.Cli.{error_message, printed, logged, cli_get, cli_inc, cli_set, cli_list, cli_join}
use dcounter.Cli.Printing.{cli_prints_success}
use dcounter.Cli.Genkey.{genkey, genkey_secret}
use dcounter.Cli.Launch.{default_options, Options, Host, launch, running, configure, secret}
use dcounter.Cli.Launch.Started.{launch-running}
use dcounter.Tests.Rep.{test_rep}
use dcounter.Tests.Counters.{whole}
use dcounter.Tests.Servers.{a, n}
use dcounter.Tests.Clients.{refusing, refuses}

-- A network in which every host has one address.
abbrev pub one_ip : Text
one_ip = codes "10.0.0.1"

pub look : Text → Result (List Text)
look host = ok (one_ip ∷ [])

-- A port that is no number panics.
named_port_panics : split_host_port look (codes "a:http") (pos 9373) ≡ none
unfolding split_host_port look
named_port_panics = refl

in_brackets : net_split (codes "[::1]:80") ≡ ok (codes "::1", codes "80")
unfolding net_split
in_brackets = refl

abbrev pub defaults : Config
defaults = record {
  name = [];
  suspicion_mult = 6;
  probe_interval = 5 * second;
  probe_timeout = 3 * second;
  gossip_nodes = 4;
  push_pull_interval = 60 * second;
  gossip_interval = 500_000_000;
  bind_addr = codes "0.0.0.0";
  bind_port = pos 7946;
  advertise_addr = [];
  advertise_port = pos 7946;
  secret_key = [];
}

abbrev shown : Float → Text
shown v = codes "x"

cli_prints_success_example :
    ((cli_get refusing shown (n ∷ codes "+00002" ∷ []) tt).0
      ≡ some (printed (shown zero_float ++ codes " (" ++ codes "CONSISTENT" ++ codes ")\n") ∷ []))
    × ((cli_inc refusing shown (n ∷ codes "+00002" ∷ codes "+00002" ∷ []) tt).0
        ≡ some (printed (shown zero_float ++ newline ∷ []) ∷ []))
    × ((cli_set refusing shown (n ∷ codes "+00002" ∷ codes "+00002" ∷ []) tt).0
        ≡ some (printed (shown (whole 2) ++ codes " (" ++ shown zero_float ++ codes ")\n") ∷ []))
    × ((cli_list refusing shown tt).0 ≡ some [])
    × ((cli_join refusing (codes "+00002" ∷ []) tt).0 ≡ some (printed (codes "OK\n") ∷ []))
cli_prints_success_example =
    cli_prints_success refusing shown refuses tt n (codes "+00002") (whole 2) (codes "+00002" ∷ [])
      refl

abbrev pub options : Options
options = record {
  name = a;
  bind = codes "a";
  advertise = [];
  client = codes "a:9374";
  join_hosts = codes "b" ∷ [];
  load_file = [];
  saving_file = codes "dcounter.json";
  save_interval = 60 * second;
  pidfile = [];
  syslog = [];
  sync_interval = 10 * second;
  update_interval = 100_000_000;
  update_nodes = 3;
  key = [];
}

abbrev pub machine : Host
machine = record {
  look = look;
  defaults = defaults;
  write_pidfile = none;
  decode_key = λ key. ok key;
  created = λ _. none;
  listening = λ _. none;
  now = pos 1;
  joined = λ _. some eof;
  opened = λ _. none;
  document = λ _. [];
  decoded = λ _. none;
}

-- The server that joins at once, which fails.
abbrev pub launched : Server
launched = (join (some eof) (pos 1) (start none none (pos 1) (new_server a)).0).0

abbrev pub launched_config : Config
launched_config = configure options [] (addressed a one_ip one_ip 9373 defaults)

pub launches : launch options machine ≡ running (codes "[ERR] EOF" ∷ []) launched launched_config
unfolding launch look start join configure base_config
launches = refl

launch-running_example :
    ((options.join_hosts ≡ []) ⊎ (text_eq options.load_file [] ≡ true))
    × Reach a (pos 1) launched
    × (launched_config.name ≡ a)
    × (launched_config.push_pull_interval ≡ 10 * second)
    × (launched_config.gossip_interval ≡ 100_000_000)
    × (launched_config.gossip_nodes ≡ 3)
    × (secret options machine defaults ≡ ok launched_config.secret_key)
launch-running_example =
    launch-running options machine launched launched_config (codes "[ERR] EOF" ∷ []) tt launches

-- Without flags, on a machine whose name can be looked up, the server runs and logs nothing.
runs_by_default :
    launch (default_options a) machine
    ≡ running []
        (start none none (pos 1) (new_server a)).0
        (configure (default_options a) [] (addressed a one_ip one_ip 9373 defaults))
unfolding launch look start configure base_config default_options
runs_by_default = refl

-- The same server with a key that `genkey` printed.
abbrev keyed_options : Options
keyed_options = record options { key = codes "k3y" }

abbrev keyed_config : Config
keyed_config = configure keyed_options (codes "k3y") (addressed a one_ip one_ip 9373 defaults)

keyed_launches :
    launch keyed_options machine ≡ running (codes "[ERR] EOF" ∷ []) launched keyed_config
unfolding launch look start join configure base_config
keyed_launches = refl

-- A source of randomness that fails is logged, and no key is printed.
no_randomness : genkey (λ bytes. bytes) (err eof) ≡ logged (codes "[ERR] EOF") ∷ []
unfolding genkey error_message
no_randomness = refl

genkey_secret_example : ok (codes "k3y") ≡ ok keyed_config.secret_key
genkey_secret_example =
    genkey_secret (λ bytes. bytes) (ok (codes "k3y")) keyed_options machine launched keyed_config
      (codes "[ERR] EOF" ∷ []) (λ bytes. refl) tt (unfold genkey in refl) (unfold text_eq in refl)
      keyed_launches
