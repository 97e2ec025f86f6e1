-- ===== src/Cli/Launch/Started.antt =====
-- The server that the `server` command leaves running (server.go).
use mathlib.Core.Path.{subst}
use dcounter.Base.{
  has_byte, if◌then◌else◌, sym, ◌∙◌, map, ◌≡◌, ◌⊎◌, ap, refl, true, false, none, some, List, [],
  Text, arith, text_eq, Option-cases, Bool-cases, inl, inr,
}
use dcounter.Base.Int.{pos}
use dcounter.Base.Result.{Result, ok, Result-cases}
use dcounter.Wire.{FloatRep}
use dcounter.Server.{Server}
use dcounter.Server.Address.{Config, new, split_host_port, base_config, colon}
use dcounter.Server.Lifecycle.{new_server, start, join, load}
use dcounter.Server.Lists.{AreMaps}
use dcounter.Server.Run.{Reach, started, next, join_called, loaded}
use dcounter.Cli.Launch.{
  with_port, Options, Host, running, launch, make_server, start_up, fill_up, join_and_load,
  configure, secret, advertised,
}

-- Of `--join` and `--load`, a server that runs was given one at most.
join_or_load :
    (o : Options) → join_and_load o ≡ false → (o.join_hosts ≡ []) ⊎ (text_eq o.load_file [] ≡ true)
unfolding join_and_load
join_or_load o e = ground arith

-- What `--join` and `--load` make of a server.
fill_up_lem :
    (o : Options) (h : Host) (config c : Config) (s s' : Server) (log : List Text)
    → fill_up o h config s ≡ running log s' c
    → ((s ≡ s') ⊎ ((join (h.joined (map with_port o.join_hosts)) h.now s).0 ≡ s'))
      ⊎ ((load none (h.document o.load_file) (h.decoded o.load_file) s).0 ≡ s')
unfolding fill_up join load
fill_up_lem o h config c s s' log e = elim (Bool-cases (text_eq o.load_file [])) [
  | inl no_file ↦ inl (ground (arith, no_file, e))
  | inr file ↦ elim (Option-cases (h.opened o.load_file)) [
    | inl opens ↦ ground (arith, file, opens, e)
    | inr (x, fails) ↦ ground (arith, file, fails, e)
  ]
]

start_up_lem :
    (o : Options) (h : Host) (config c : Config) (s s' : Server) (log : List Text)
    → start_up o h config s ≡ running log s' c
    → fill_up o h config (start none none h.now s).0 ≡ running log s' c
unfolding start_up start
start_up_lem o h config c s s' log e = elim (Option-cases (h.created config)) [
  | inr (x, fails) ↦ ground (arith, fails, e)
  | inl creates ↦ elim (Option-cases (h.listening o.client)) [
    | inr (x, fails) ↦ ground (arith, creates, fails, e)
    | inl listens ↦ ground (arith, creates, listens, e)
  ]
]

module _ ⦃rep : FloatRep⦄ (o : Options) (h : Host) (maps : AreMaps (h.document o.load_file)) where
  fill_up-Reach :
      (config c : Config) (s s' : Server) (log : List Text)
      → Reach o.name h.now s
      → fill_up o h config s ≡ running log s' c
      → Reach o.name h.now s'
  fill_up-Reach config c s s' log r e = elim (fill_up_lem o h config c s s' log e) [
    | inl (inl same) ↦ subst (Reach o.name h.now) same r
    | inl (inr joins) ↦
        subst (Reach o.name h.now) joins
          (next r (join_called (h.joined (map with_port o.join_hosts)) h.now))
    | inr loads ↦
        subst (Reach o.name h.now) loads
          (next r (loaded (h.document o.load_file) (h.decoded o.load_file) maps))
  ]

-- The server and the Config that New returns.
new_lem :
    (look : Text → Result (List Text)) (defaults made : Config) (name bind advertise : Text)
    (s : Server)
    → new look defaults name bind advertise ≡ some (ok (s, made))
    → (s ≡ new_server name) × (made.name ≡ name) × (made.secret_key ≡ defaults.secret_key)
unfolding new base_config
new_lem look defaults made name bind advertise s e =
    elim (Option-cases (split_host_port look bind (pos 9373))) [
      | inl panics ↦ ground (arith, panics, e)
      | inr (r, first) ↦ elim (Result-cases r) [
        | inr (x, fails) ↦ ground (arith, first, fails, e)
        | inl ((ip, port), bound) ↦ elim (Option-cases (split_host_port look advertise port)) [
          | inl panics ↦ ground (arith, first, bound, panics, e)
          | inr (r', second) ↦ elim (Result-cases r') [
            | inr (x, fails) ↦ ground (arith, first, bound, second, fails, e)
            | inl (a, found) ↦ ground (arith, first, bound, second, found, e)
          ]
        ]
      ]
    ]

secret-cong :
    (o : Options) (h : Host) (c c' : Config)
    → c.secret_key ≡ c'.secret_key
    → secret o h c ≡ secret o h c'
unfolding secret
secret-cong o h c c' e = rw e refl

-- What `make_server` has done when a server runs.
make_server_lem :
    (o : Options) (h : Host) (c : Config) (s' : Server) (log : List Text)
    → make_server o h ≡ running log s' c
    → (made : Config) × (key : Text) × (made.name ≡ o.name)
      × (secret o h h.defaults ≡ ok key)
      × (start_up o h (configure o key made) (new_server o.name) ≡ running log s' c)
unfolding make_server
make_server_lem o h c s' log e =
    elim (Option-cases (new h.look h.defaults o.name o.bind (advertised o))) [
      | inl panics ↦ ground (arith, panics, e)
      | inr (r, done) ↦ elim (Result-cases r) [
        | inr (x, fails) ↦ ground (arith, done, fails, e)
        | inl ((s, made), succeeds) ↦ elim (Result-cases (secret o h made)) [
          | inr (x, bad) ↦ ground (arith, done, succeeds, bad, e)
          | inl (key, decoded) ↦
              let (fresh, named, keyed) =
                new_lem h.look h.defaults made o.name o.bind (advertised o) s
                  (done ∙ ap some succeeds) in
              (
                made,
                key,
                named,
                secret-cong o h h.defaults made (sym keyed) ∙ decoded,
                ap (start_up o h (configure o key made)) (sym fresh)
                    ∙ ground (arith, done, succeeds, decoded, e),
              )
        ]
      ]
    ]

launch_lem :
    (o : Options) (h : Host) (c : Config) (s' : Server) (log : List Text)
    → launch o h ≡ running log s' c
    → (join_and_load o ≡ false) × (make_server o h ≡ running log s' c)
unfolding launch
launch_lem o h c s' log e =
    elim (Bool-cases (if text_eq o.syslog [] then true else has_byte colon o.syslog)) [
      | inr bad ↦ ground (arith, bad, e)
      | inl good ↦ elim (Option-cases (if text_eq o.pidfile [] then none else h.write_pidfile)) [
        | inr (x, fails) ↦ ground (arith, good, fails, e)
        | inl written ↦ elim (Bool-cases (join_and_load o)) [
          | inl both ↦ ground (arith, good, written, both, e)
          | inr one ↦ (one, ground (arith, good, written, one, e))
        ]
      ]
    ]

fill_up-config :
    (o : Options) (h : Host) (config c : Config) (s s' : Server) (log : List Text)
    → fill_up o h config s ≡ running log s' c
    → config ≡ c
unfolding fill_up
fill_up-config o h config c s s' log e = ground (arith, e)

-- If the `server` command leaves a server running, then it was not given both `--join` and
-- `--load`, the server is one that its handlers reach from Start, whatever Join or Load said, and
-- the Config has the name, the intervals and the number of nodes of the flags, and the secret that
-- `--key` decodes to, or memberlist's own without a `--key`. The file of `--load` holds each key
-- once.
pub launch-running :
    ⦃rep : FloatRep⦄ (o : Options) (h : Host) (s : Server) (c : Config) (log : List Text)
    → AreMaps (h.document o.load_file)
    → launch o h ≡ running log s c
    → ((o.join_hosts ≡ []) ⊎ (text_eq o.load_file [] ≡ true))
      × Reach o.name h.now s
      × (c.name ≡ o.name)
      × (c.push_pull_interval ≡ o.sync_interval)
      × (c.gossip_interval ≡ o.update_interval)
      × (c.gossip_nodes ≡ o.update_nodes)
      × (secret o h h.defaults ≡ ok c.secret_key)
unfolding configure
launch-running o h s c log maps e =
    let (one, made) = launch_lem o h c s log e in
    let (config, key, named, keyed, starts) = make_server_lem o h c s log made in
    let fills = start_up_lem o h (configure o key config) c (new_server o.name) s log starts in
    let same =
      fill_up-config o h (configure o key config) c (start none none h.now (new_server o.name)).0 s
        log fills in
    (
      join_or_load o one,
      fill_up-Reach o h maps (configure o key config) c
          (start none none h.now (new_server o.name)).0 s log started fills,
      ap (λ x. x.name) (sym same) ∙ named,
      ap (λ x. x.push_pull_interval) (sym same),
      ap (λ x. x.gossip_interval) (sym same),
      ap (λ x. x.gossip_nodes) (sym same),
      keyed ∙ ap (λ x. ok x.secret_key) same,
    )
