-- ===== src/Server/Address.antt =====
-- splitHostPort of server/util.go and the Config that New of server/server.go makes. LookupIP,
-- which asks the network, is the parameter `look`, and memberlist's DefaultWANConfig is one, too.
pub mod Split
pub mod Ports
use dcounter.Base.{
  has_byte, ℕ, ◌+◌, ◌*◌, ◌-◌, ◌^◌, ◌&&◌, Option, none, some, List, [], ◌∷◌, ◌++◌, Text, codes, leb,
  ltb, ◌==◌, if◌then◌else◌,
}
use dcounter.Base.Int.{ℤ, pos, negsuc, neg_ℤ}
use dcounter.Base.Result.{Result, message, ok, err}
use dcounter.Errors.{decimal}
use dcounter.Server.{Server}
use dcounter.Server.Lifecycle.{new_server}

abbrev pub colon : ℕ
colon = 58

-- A text cut at its last ':'.
unfoldable pub split_last : Text → Option (Text × Text)
split_last [] = none
split_last (c ∷ cs) = elim (split_last cs) [
  | some (before, after) ↦ some (c ∷ before, after)
  | none ↦ if c == colon then some ([], cs) else none
]

-- A text cut at its first ']'.
unfoldable pub split_bracket : Text → Option (Text × Text)
split_bracket [] = none
split_bracket (c ∷ cs) =
    let rest = split_bracket cs in
    if c == 93
    then some ([], cs)
    else elim rest [ none ↦ none | some (before, after) ↦ some (c ∷ before, after) ]

-- The error of `net.SplitHostPort` on an address.
abbrev pub addr_error : Text → Text → Result (Text × Text)
addr_error t why = err (message (codes "address " ++ t ++ codes ": " ++ why))

-- `net.SplitHostPort` on an address that starts with '[': what follows the first ']'.
unfoldable pub after_bracket : Text → Text → Text → Result (Text × Text)
unfolding has_byte
after_bracket t host [] = addr_error t (codes "missing port in address")
after_bracket t host (c ∷ port) =
    if c == colon
    then (if has_byte colon port
        then addr_error t (codes "too many colons in address")
        else if has_byte 91 host
        then addr_error t (codes "unexpected '[' in address")
        else if has_byte 91 port
        then addr_error t (codes "unexpected '[' in address")
        else if has_byte 93 port
        then addr_error t (codes "unexpected ']' in address")
        else ok (host, port))
    else addr_error t (codes "missing port in address")

-- `net.SplitHostPort` on any other address.
unfoldable pub plain_host : Text → Text → Text → Result (Text × Text)
unfolding has_byte
plain_host t host port =
    if has_byte colon host
    then addr_error t (codes "too many colons in address")
    else if has_byte 91 t
    then addr_error t (codes "unexpected '[' in address")
    else if has_byte 93 t
    then addr_error t (codes "unexpected ']' in address")
    else ok (host, port)

-- `net.SplitHostPort`
unfoldable pub net_split : Text → Result (Text × Text)
unfolding split_last split_bracket after_bracket plain_host
net_split [] = addr_error [] (codes "missing port in address")
net_split (c ∷ cs) = elim (split_last (c ∷ cs)) [
  | none ↦ addr_error (c ∷ cs) (codes "missing port in address")
  | some (host, port) ↦
      if c == 91
      then elim (split_bracket cs) [
        | none ↦ addr_error (c ∷ cs) (codes "missing ']' in address")
        | some (inner, after) ↦ after_bracket (c ∷ cs) inner after
      ]
      else plain_host (c ∷ cs) host port
]

-- The digits of a number, read after a number.
unfoldable pub digits_from : ℕ → Text → Option ℕ
digits_from n [] = some n
digits_from n (c ∷ cs) =
    let rest = digits_from (10 * n + (c - 48)) cs in if leb 48 c && leb c 57 then rest else none

abbrev pub digits : Text → Option ℕ
unfolding digits_from
digits [] = none
digits (c ∷ cs) = digits_from 0 (c ∷ cs)

abbrev pub at_most : ℕ → (ℕ → ℤ) → Option ℕ → Option ℤ
at_most limit of none = none
at_most limit of (some n) = if leb n limit then some (of n) else none

-- `strconv.ParseInt(s, 10, 32)`: `none` is an error.
unfoldable pub parse_int : Text → Option ℤ
unfolding digits_from
parse_int [] = none
parse_int (c ∷ cs) =
    if c == 45
    then at_most (2 ^ 31) (λ n. neg_ℤ (pos n)) (digits cs)
    else if c == 43
    then at_most (2 ^ 31 - 1) pos (digits cs)
    else at_most (2 ^ 31 - 1) pos (digits (c ∷ cs))

-- `strconv.FormatInt(i, 10)`
unfoldable pub format_int : ℤ → Text
unfolding decimal
format_int (pos n) = decimal n
format_int (negsuc n) = 45 ∷ decimal (n + 1)

-- The port and the first IP, once the host is looked up: a port that is no number panics, as does
-- an empty list.
unfoldable pub address_of : Text → List Text → Option (Text × ℤ)
unfolding parse_int
address_of port ips = elim (parse_int port) [
  | none ↦ none
  | some p ↦ elim ips [ [] ↦ none | ip ∷ _ ↦ some (ip, p) ]
]

module _ (look : Text → Result (List Text)) where
  -- `splitHostPort`: `none` is a panic.
  unfoldable pub split_host_port : Text → ℤ → Option (Result (Text × ℤ))
  unfolding has_byte net_split format_int address_of
  split_host_port hostport default_port =
      let full =
        if has_byte colon hostport then hostport else hostport ++ colon ∷ format_int default_port in
      elim (net_split full) [
        | err e ↦ some (err e)
        | ok (host, port) ↦ elim (look host) [
          | err e ↦ some (err e)
          | ok ips ↦ elim (address_of port ips) [ none ↦ none | some a ↦ some (ok a) ]
        ]
      ]

-- The fields of memberlist's Config that the program sets; durations in nanoseconds.
pub record Config : Type 0 where
  pub name : Text
  pub suspicion_mult : ℕ
  pub probe_interval : ℕ
  pub probe_timeout : ℕ
  pub gossip_nodes : ℕ
  pub push_pull_interval : ℕ
  pub gossip_interval : ℕ
  pub bind_addr : Text
  pub bind_port : ℤ
  pub advertise_addr : Text
  pub advertise_port : ℤ
  pub secret_key : Text

abbrev pub second : ℕ
second = 1_000_000_000

-- What New sets before the addresses.
unfoldable pub base_config : Text → Config → Config
base_config name defaults = record defaults {
  name = name;
  suspicion_mult = 2;
  probe_interval = 2 * second;
  probe_timeout = 4 * second;
  gossip_nodes = 2;
  push_pull_interval = 60 * second;
  gossip_interval = 500_000_000;
}

-- `New`: the client's address only goes to the listener. `none` is a panic.
unfoldable pub new :
    (Text → Result (List Text)) → Config → Text → Text → Text → Option (Result (Server × Config))
unfolding split_host_port base_config new_server
new look defaults name bind advertise = elim (split_host_port look bind (pos 9373)) [
  | none ↦ none
  | some (err e) ↦ some (err e)
  | some (ok (ip, port)) ↦ elim (split_host_port look advertise port) [
    | none ↦ none
    | some (err e) ↦ some (err e)
    | some (ok (ip', port')) ↦ some (
        ok (
          new_server name,
          record (base_config name defaults) {
            bind_addr = ip;
            bind_port = port;
            advertise_addr = ip';
            advertise_port = port';
          },
        ))
  ]
]
