-- ===== src/Cli/Launch.antt =====
-- The action of the `server` command (server.go), up to the wait for a signal; what comes after is
-- in Served. The metrics are left out.
pub mod Started
pub mod Served
use dcounter.Base.{
  ◌*◌, has_byte, ℕ, Bool, true, false, Option, none, some, List, [], ◌∷◌, ◌++◌, map, Text, codes,
  text_eq, if◌then◌else◌,
}
use dcounter.Base.Int.{ℤ}
use dcounter.Base.Result.{Error, Result, ok, err}
use dcounter.Server.{Server, Counters}
use dcounter.Server.Address.{second, colon, Config, new}
use dcounter.Server.Lifecycle.{start, join, load}
use dcounter.Cli.{error_message}

-- The flags of the command; an empty text stands for a flag that is not given.
pub record Options : Type 0 where
  pub name : Text
  pub bind : Text
  pub advertise : Text
  pub client : Text
  pub join_hosts : List Text
  pub load_file : Text
  pub saving_file : Text
  pub save_interval : ℕ
  pub pidfile : Text
  pub syslog : Text
  pub sync_interval : ℕ
  pub update_interval : ℕ
  pub update_nodes : ℕ
  pub key : Text

-- What the flags are if none is given, on a machine of that name.
unfoldable pub default_options : Text → Options
default_options hostname = record {
  name = hostname;
  bind = codes "127.0.0.1:9373";
  advertise = [];
  client = codes "127.0.0.1:9374";
  join_hosts = [];
  load_file = [];
  saving_file = [];
  save_interval = 60 * second;
  pidfile = [];
  syslog = [];
  sync_interval = 10 * second;
  update_interval = 100_000_000;
  update_nodes = 2;
  key = [];
}

-- What the command meets: LookupIP, memberlist's DefaultWANConfig, Create and Join,
-- ioutil.WriteFile, base64's DecodeString, net.Listen, the clock, and what Load finds in a file.
pub record Host : Type 0 where
  pub look : Text → Result (List Text)
  pub defaults : Config
  pub write_pidfile : Option Error
  pub decode_key : Text → Result Text
  pub created : Config → Option Error
  pub listening : Text → Option Error
  pub now : ℤ
  pub joined : List Text → Option Error
  pub opened : Text → Option Error
  pub document : Text → Counters
  pub decoded : Text → Option Error

-- How far the command comes, each with the lines that it has logged: a panic, an early return, or a
-- server that runs.
pub data Launch : Type 0 where
  panicked : List Text → Launch
  returned : List Text → Launch
  running : List Text → Server → Config → Launch

-- A line for an error, and none for nil.
unfoldable pub log_lines : Option Error → List Text
unfolding error_message
log_lines none = []
log_lines (some e) = error_message e ∷ []

-- `if !strings.ContainsRune(s, ':') { join[i] += ":9373" }`
unfoldable pub with_port : Text → Text
unfolding has_byte
with_port host = if has_byte colon host then host else host ++ codes ":9373"

-- `--advertise`, which defaults to `--bind`.
unfoldable pub advertised : Options → Text
unfolding text_eq
advertised o = if text_eq o.advertise [] then o.bind else o.advertise

-- The flags that end up in the Config.
unfoldable pub configure : Options → Text → Config → Config
configure o key config = record config {
  push_pull_interval = o.sync_interval;
  gossip_interval = o.update_interval;
  gossip_nodes = o.update_nodes;
  secret_key = key;
}

-- `--key`: no key leaves the Config's.
unfoldable pub secret : Options → Host → Config → Result Text
unfolding text_eq
secret o h config = if text_eq o.key [] then ok config.secret_key else h.decode_key o.key

-- Once the server has started: `--join`, or `--load`. Their errors are logged only.
unfoldable pub fill_up : Options → Host → Config → Server → Launch
unfolding join load log_lines with_port text_eq
fill_up o h config s = elim o.join_hosts [
  | host ∷ hosts ↦
      let (s', e) = join (h.joined (map with_port (host ∷ hosts))) h.now s in
      running (log_lines e) s' config
  | [] ↦
      let (s', e) =
        load (h.opened o.load_file) (h.document o.load_file) (h.decoded o.load_file) s in
      if text_eq o.load_file [] then running [] s config else running (log_lines e) s' config
]

-- Start, at a Config with all flags in it.
unfoldable pub start_up : Options → Host → Config → Server → Launch
unfolding start fill_up log_lines
start_up o h config s =
    let (s', e) = start (h.created config) (h.listening o.client) h.now s in
    elim e [ some x ↦ returned (log_lines (some x)) | none ↦ fill_up o h config s' ]

-- New, and the flags for the Config.
unfoldable pub make_server : Options → Host → Launch
unfolding new advertised secret configure start_up log_lines
make_server o h = elim (new h.look h.defaults o.name o.bind (advertised o)) [
  | none ↦ panicked []
  | some made ↦ elim made [
    | err e ↦ returned (log_lines (some e))
    | ok (s, config) ↦ elim (secret o h config) [
      | err e ↦ returned (log_lines (some e))
      | ok key ↦ start_up o h (configure o key config) s
    ]
  ]
]

-- `len(join) > 0 && c.String("load") != ""`
unfoldable pub join_and_load : Options → Bool
unfolding text_eq
join_and_load o = elim o.join_hosts [
  | [] ↦ false
  | _ ∷ _ ↦ if text_eq o.load_file [] then false else true
]

-- The action. A `--syslog` without a ':' is logged as invalid, and then panics: the second of its
-- parts is read all the same.
unfoldable pub launch : Options → Host → Launch
unfolding has_byte text_eq join_and_load make_server log_lines
launch o h =
    let pid = if text_eq o.pidfile [] then none else h.write_pidfile in
    if (if text_eq o.syslog [] then true else has_byte colon o.syslog)
    then elim pid [
      | some e ↦ returned (log_lines (some e))
      | none ↦
          if join_and_load o
          then returned (codes "[ERR] Can not use --load and --join at the same time" ∷ [])
          else make_server o h
    ]
    else panicked (codes "[ERR] invalid --syslog, expected network:addr" ∷ [])
