-- ===== src/Server/Address/Split.antt =====
-- Addresses with and without a port (splitHostPort of server/util.go).
use mathlib.Core.Path.{subst}
use dcounter.Base.{
  ◌∙◌, has_byte, ℕ, zero, suc, ◌+◌, ◌/◌, ◌%◌, ◌^◌, ◌<◌, ◌≡◌, refl, true, false, none, some, List,
  [], ◌∷◌, ◌++◌, Text, ltb, ◌-◌, arith, Bool-cases, inl, inr,
}
use dcounter.Base.Int.{ℤ, pos}
use dcounter.Base.Result.{Result, ok, err}
use dcounter.Errors.{decimal_from, decimal}
use dcounter.Proto.RoundTrip.{has_byte-append}
use dcounter.Server.Address.{
  colon, split_last, net_split, plain_host, digits_from, digits, parse_int, at_most, format_int,
  address_of, split_host_port,
}

-- A text with no colon and no brackets.
pub record IsHost (t : Text) : Type 0 where
  pub no_colon : has_byte colon t ≡ false
  pub no_open : has_byte 91 t ≡ false
  pub no_close : has_byte 93 t ≡ false

digits_from-decimal_from :
    (f n : ℕ) (out : Text) → n < f → digits_from 0 (decimal_from f n out) ≡ digits_from n out
unfolding digits_from decimal_from
digits_from-decimal_from zero n out h = absurd (omega arith)
digits_from-decimal_from (suc f) n out h = elim (Bool-cases (ltb n 10)) [
  | inl small ↦ ground (arith, small)
  | inr large ↦ rw large (
      ground
        (arith, digits_from-decimal_from f (n / 10) ((48 + n % 10) ∷ out) (ground (arith, large))))
]

has_byte-decimal_from :
    (b f n : ℕ) (out : Text) → 57 < b → has_byte b (decimal_from f n out) ≡ has_byte b out
unfolding has_byte decimal_from
has_byte-decimal_from b zero n out h = refl
has_byte-decimal_from b (suc f) n out h =
    ground (arith, has_byte-decimal_from b f (n / 10) ((48 + n % 10) ∷ out) h)

decimal_from-cons :
    (f n c : ℕ) (out : Text) → (d : ℕ) × (ds : Text) × (decimal_from f n (c ∷ out) ≡ d ∷ ds)
unfolding decimal_from
decimal_from-cons zero n c out = (c, out, refl)
decimal_from-cons (suc f) n c out = elim (Bool-cases (ltb n 10)) [
  | inl small ↦ (48 + n % 10, c ∷ out, rw small)
  | inr large ↦ rw large (decimal_from-cons f (n / 10) (48 + n % 10) (c ∷ out))
]

-- `has_byte` below the digits
small_byte-decimal_from :
    (b f n : ℕ) (out : Text) → b < 48 → has_byte b (decimal_from f n out) ≡ has_byte b out
unfolding has_byte decimal_from
small_byte-decimal_from b zero n out h = refl
small_byte-decimal_from b (suc f) n out h =
    ground (arith, small_byte-decimal_from b f (n / 10) ((48 + n % 10) ∷ out) h)

digits-decimal : (n : ℕ) → digits (decimal n) ≡ some n
unfolding decimal digits_from
digits-decimal n = elim (Bool-cases (ltb n 10)) [
  | inl small ↦ ground (arith, small)
  | inr large ↦
      let (d, ds, e) = decimal_from-cons n (n / 10) (48 + n % 10) [] in
      let read = digits_from-decimal_from n (n / 10) ((48 + n % 10) ∷ []) (ground (arith, large)) in
      rw large (rw e (subst (λ t. digits_from 0 t ≡ some n) e (read ∙ ground (arith, large))))
]

parse_int-unsigned :
    (t : Text)
    → has_byte 45 t ≡ false
    → has_byte 43 t ≡ false
    → parse_int t ≡ at_most (2 ^ 31 - 1) pos (digits t)
unfolding parse_int has_byte
parse_int-unsigned [] h k = refl
parse_int-unsigned (c ∷ cs) h k = ground (arith, h, k)

split_last-none : (t : Text) → has_byte colon t ≡ false → split_last t ≡ none
unfolding split_last has_byte
split_last-none [] h = refl
split_last-none (c ∷ t) h = ground (arith, split_last-none t, h)

split_last-port :
    (host port : Text)
    → has_byte colon port ≡ false
    → split_last (host ++ colon ∷ port) ≡ some (host, port)
unfolding split_last has_byte
split_last-port [] port h = ground (arith, split_last-none port h)
split_last-port (c ∷ host) port h = rw (split_last-port host port h)

net_split-port :
    (host port : Text)
    → IsHost host
    → IsHost port
    → net_split (host ++ colon ∷ port) ≡ ok (host, port)
unfolding net_split plain_host has_byte split_last
net_split-port [] port h k = ground (arith, split_last-none port k.no_colon, k.no_open, k.no_close)
net_split-port (x ∷ host) port h k = ground (
  arith,
  split_last-port host port k.no_colon,
  has_byte-append 91 host (colon ∷ port),
  has_byte-append 93 host (colon ∷ port),
  h.no_colon,
  h.no_open,
  h.no_close,
  k.no_open,
  k.no_close,
)

pub decimal-IsHost : (n : ℕ) → IsHost (decimal n)
unfolding decimal has_byte
decimal-IsHost n = record {
  no_colon = has_byte-decimal_from colon (suc n) n [] (omega arith);
  no_open = has_byte-decimal_from 91 (suc n) n [] (omega arith);
  no_close = has_byte-decimal_from 93 (suc n) n [] (omega arith);
}

pub parse_int-decimal : (n : ℕ) → n < 2 ^ 31 → parse_int (decimal n) ≡ some (pos n)
unfolding has_byte
parse_int-decimal n h =
    parse_int-unsigned (decimal n)
      (unfold decimal in small_byte-decimal_from 45 (suc n) n [] (omega arith))
      (unfold decimal in small_byte-decimal_from 43 (suc n) n [] (omega arith))
    ∙ ground (arith, digits-decimal n, h)

has_colon : (host port : Text) → has_byte colon (host ++ colon ∷ port) ≡ true
unfolding has_byte
has_colon [] port = refl
has_colon (c ∷ host) port = ground (arith, has_colon host port)

pub split_host_port-port :
    (look : Text → Result (List Text)) (host port : Text) (d : ℤ)
    → IsHost host
    → IsHost port
    → split_host_port look (host ++ colon ∷ port) d ≡ (elim (look host) [
      | err e ↦ some (err e)
      | ok ips ↦ elim (address_of port ips) [ none ↦ none | some a ↦ some (ok a) ]
    ])
unfolding split_host_port
split_host_port-port look host port d h k =
    rw (split_host_port, has_colon host port, net_split-port host port h k)

-- A host without a port gets the default port, whatever it is, and the first of its addresses.
pub split_host_port-default :
    (look : Text → Result (List Text)) (host ip : Text) (ips : List Text) (d : ℕ)
    → IsHost host
    → d < 2 ^ 31
    → look host ≡ ok (ip ∷ ips)
    → split_host_port look host (pos d) ≡ some (ok (ip, pos d))
unfolding split_host_port format_int address_of
split_host_port-default look host ip ips d h k found =
    let split : net_split (host ++ colon ∷ format_int (pos d)) ≡ ok (host, decimal d) =
      net_split-port host (decimal d) h (decimal-IsHost d) in
    rw (split_host_port, h.no_colon, split, found, address_of, parse_int-decimal d k)
