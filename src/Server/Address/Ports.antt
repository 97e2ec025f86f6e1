-- ===== src/Server/Address/Ports.antt =====
-- The addresses that New puts into the Config (server/server.go).
use dcounter.Base.{◌≡◌, ◌^◌, ◌<◌, ◌∷◌, ◌++◌, ℕ, List, Text, some, arith}
use dcounter.Base.Int.{pos}
use dcounter.Base.Result.{Result, ok}
use dcounter.Errors.{decimal}
use dcounter.Server.Address.{colon, Config, base_config, new, address_of, split_host_port}
use dcounter.Server.Address.Split.{
  IsHost, decimal-IsHost, parse_int-decimal, split_host_port-port, split_host_port-default,
}
use dcounter.Server.Lifecycle.{new_server}

-- The Config with its addresses.
abbrev pub addressed : Text → Text → Text → ℕ → Config → Config
addressed name ip ip' port defaults = record (base_config name defaults) {
  bind_addr = ip;
  bind_port = pos port;
  advertise_addr = ip';
  advertise_port = pos port;
}

split_host_port-decimal :
    (look : Text → Result (List Text)) (host ip : Text) (ips : List Text) (p d : ℕ)
    → IsHost host
    → p < 2 ^ 31
    → look host ≡ ok (ip ∷ ips)
    → split_host_port look (host ++ colon ∷ decimal p) (pos d) ≡ some (ok (ip, pos p))
unfolding address_of
split_host_port-decimal look host ip ips p d h small found = ground (
  arith,
  split_host_port-port look host (decimal p) (pos d) h (decimal-IsHost p),
  found,
  parse_int-decimal p small,
)

-- New with hosts that can be looked up: without ports it takes 9373 for both addresses; with a port
-- in `bind` alone, that port is the advertised one, too. Each host's first address is taken.
pub new_ports :
    (look : Text → Result (List Text)) (defaults : Config) (name bind advertise ip ip' : Text)
    (ips ips' : List Text) (p : ℕ)
    → IsHost bind
    → IsHost advertise
    → look bind ≡ ok (ip ∷ ips)
    → look advertise ≡ ok (ip' ∷ ips')
    → p < 2 ^ 31
    → (new look defaults name bind advertise
        ≡ some (ok (new_server name, addressed name ip ip' 9373 defaults)))
      × (new look defaults name (bind ++ colon ∷ decimal p) advertise
          ≡ some (ok (new_server name, addressed name ip ip' p defaults)))
unfolding new
new_ports look defaults name bind advertise ip ip' ips ips' p b a found found' small =
    let advertised =
      λ (d : ℕ) (k : d < 2 ^ 31). split_host_port-default look advertise ip' ips' d a k found' in
    (
      ground (
        arith,
        split_host_port-default look bind ip ips 9373 b (omega arith) found,
        advertised 9373 (omega arith),
      ),
      ground (
        arith,
        split_host_port-decimal look bind ip ips p 9373 b small found,
        advertised p small,
      ),
    )
