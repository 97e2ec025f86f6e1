-- ===== src/Tests/Clients.antt =====
-- Clients, lines, errors and the pool at concrete inputs.
use dcounter.Base.{
  ℕ, ◌+◌, ◌≡◌, ◌↔◌, refl, true, false, none, some, List, [], ◌∷◌, ◌++◌, Text, text_eq, has_byte,
  length, codes,
}
use dcounter.Base.Int.{pos, ◌+ℤ◌, neg_ℤ}
use dcounter.Base.Dict.{lookup, insert}
use dcounter.Base.Result.{Result, eof, message, ok, err}
use dcounter.Float.{zero_float, ◌+F◌, ◌-F◌, neg, gt, eqb}
use dcounter.Counter.{value, inc_counter}
use dcounter.Errors.{len, errors_text, decimal}
use dcounter.Proto.{read, write_line, join_words, has_prefix}
use dcounter.Proto.RoundTrip.{IsWord, read-write_line}
use dcounter.Server.{Server, broadcast_change, lookup_counter}
use dcounter.Server.Local
use dcounter.Server.Handle.{Outside}
use dcounter.Api.{Net, read_reply}
use dcounter.Api.Methods.{ping, join, save, members, list, inc, set, get}
use dcounter.Api.Losses.{NoReply, NoReply-no_error}
use dcounter.Api.EndToEnd.{direct_net, lossy_net, inc_counted_twice}
use dcounter.Api.Interface.{client, direct}
use dcounter.Api.Refinement.{over_wire, client_refines_server}
use dcounter.Counter.{set_counter}
use dcounter.Pool.{Pool, new_pool, timed_out, put}
use dcounter.Pool
use dcounter.Pool.Bounds.{pool_bounds, made}
use dcounter.Tests.Rep.{test_rep}
use dcounter.Tests.Counters.{whole, counter, counter-finite}
use dcounter.Tests.Servers.{a, n, server_a, node_b}

abbrev plain : Text → Text
plain t = t

pub word : (w : Text) → has_byte 32 w ≡ false → has_byte 10 w ≡ false → IsWord w
word w h k = record { no_space = h; no_newline = k }

pub n-IsWord : IsWord n
n-IsWord = word n (unfold has_byte in refl) (unfold has_byte in refl)

read-write_line_example :
    read plain (write_line (codes "GET") (n ∷ []) ++ codes "PING")
    ≡ ok ((codes "GET", n ∷ []), codes "PING")
read-write_line_example =
    read-write_line plain (codes "GET") (n ∷ []) (codes "PING")
      (word (codes "GET") (unfold has_byte in refl) (unfold has_byte in refl)) (n-IsWord, tt)
      (unfold has_prefix join_words in refl)

two_errors : errors_text (some eof ∷ none ∷ some eof ∷ []) ≡ codes "2 errors:\nEOF\nEOF"
unfolding errors_text
two_errors = refl

ten : decimal 1205 ≡ codes "1205"
unfolding decimal
ten = refl

abbrev pub outside : Outside
outside = record {
  nodes = node_b ∷ [];
  send = λ _ _. none;
  joined = none;
  now = pos 3;
  encode = λ _. err eof;
  encode_members = λ _. ok (codes "[]");
  errorf = plain;
}

-- A server that answers each command with an ERR line.
abbrev pub refusing : Net (Unit {0})
refusing = record {
  dial = λ w. (none, w);
  send = λ _ w. (none, w);
  recv = λ w. (ok (codes "ERR no"), w);
  close = λ w. (none, w);
  errorf = plain;
}

pub refuses : NoReply refusing
refuses = record {
  dials = λ w. refl;
  sends = λ line w. refl;
  fails = λ w. (message (codes "no"), unfold read_reply in refl);
}

no_members : Text → Result (List Text)
no_members _ = err eof

NoReply-no_error_example :
    ((ping refusing true tt).0 ≡ some (tt, none))
    × ((join refusing true tt []).0 ≡ some (tt, none))
    × ((save refusing true tt).0 ≡ some ([], none))
    × ((members refusing true tt no_members).0 ≡ some (none, none))
    × ((list refusing true tt).0 ≡ some (none, none))
    × ((inc refusing true tt n (whole 2)).0 ≡ some (zero_float, none))
    × ((set refusing true tt n (whole 2)).0 ≡ some (zero_float, none))
    × ((get refusing true tt n).0 ≡ some ((zero_float, true), none))
NoReply-no_error_example = NoReply-no_error refusing no_members true tt n (whole 2) [] refuses

-- The server after an increment of `n` by 2.
abbrev pub incremented : Server
incremented = broadcast_change n (inc_counter (whole 2) (counter 5 1 0)) (record server_a {
  replicas =
      insert a (insert n (inc_counter (whole 2) (counter 5 1 0)) ((n, counter 5 1 0) ∷ []))
        server_a.replicas;
})

pub incs : Local.inc n (whole 2) server_a ≡ some (whole 6, incremented)
unfolding Local.inc broadcast_change inc_counter value ◌-F◌ ◌+F◌ gt neg neg_ℤ ◌+ℤ◌ lookup insert
    text_eq
incs = refl

inc_counted_twice_example :
    (s'' : Server) × (inc (lossy_net outside) true server_a n (whole 2)
      ≡ (some (zero_float, none), false, s''))
    × ((Local.get n s'').0 ≡ (Local.get n server_a).0 +F whole 2 +F whole 2)
inc_counted_twice_example =
    inc_counted_twice outside true n (whole 2) server_a n-IsWord (unfold text_eq in refl) refl
      (unfold lookup text_eq in refl) tt (unfold lookup_counter text_eq in counter-finite 5 1 0)

listed : Local.list server_a ≡ (n, whole 7) ∷ []
unfolding Local.list value ◌-F◌ ◌+F◌ neg eqb neg_ℤ ◌+ℤ◌ lookup insert text_eq
listed = refl

abbrev encoding : Outside
encoding = record outside { encode = λ _. ok (codes "{}"); encode_members = λ _. ok (codes "[b]") }

-- The members of `encoding`.
abbrev decode_b : Text → Result (List (Text × Text))
decode_b _ = ok ((node_b.name, node_b.addr) ∷ [])

-- The server after a set of `n` to 9.
abbrev set_a : Server
set_a = broadcast_change n (set_counter (whole 9) (some (counter 5 1 0))) (record server_a {
  replicas =
      insert a (insert n (set_counter (whole 9) (some (counter 5 1 0))) ((n, counter 5 1 0) ∷ []))
        server_a.replicas;
})

sets :
    Local.set encoding.send encoding.nodes n (whole 9) server_a ≡ some (whole 4, none ∷ [], set_a)
unfolding Local.set broadcast_change set_counter value ◌-F◌ ◌+F◌ gt neg neg_ℤ ◌+ℤ◌ lookup insert
    text_eq
sets = refl

got : (Local.get n server_a).0 ≡ whole 7
unfolding Local.get value ◌-F◌ ◌+F◌ neg neg_ℤ ◌+ℤ◌ lookup text_eq
got = refl

client_refines_server_example :
    ((client (direct_net encoding) decode_b).ping (false, (server_a, []))
      ≡ over_wire encoding ((direct encoding).ping server_a))
    × ((client (direct_net encoding) decode_b).get n (false, (server_a, []))
        ≡ over_wire encoding ((direct encoding).get n server_a))
    × ((client (direct_net encoding) decode_b).inc n (whole 2) (false, (server_a, []))
        ≡ over_wire encoding ((direct encoding).inc n (whole 2) server_a))
    × ((client (direct_net encoding) decode_b).set n (whole 9) (false, (server_a, []))
        ≡ over_wire encoding ((direct encoding).set n (whole 9) server_a))
    × ((client (direct_net encoding) decode_b).list (false, (server_a, []))
        ≡ over_wire encoding ((direct encoding).list server_a))
    × ((client (direct_net encoding) decode_b).join (n ∷ []) (false, (server_a, []))
        ≡ over_wire encoding ((direct encoding).join (n ∷ []) server_a))
    × ((client (direct_net encoding) decode_b).save (false, (server_a, []))
        ≡ over_wire encoding ((direct encoding).save server_a))
    × ((client (direct_net encoding) decode_b).members (false, (server_a, []))
        ≡ over_wire encoding ((direct encoding).members server_a))
    × ((client (direct_net encoding) decode_b).close (false, (server_a, []))
        ≡ (none, (false, (server_a, []))))
client_refines_server_example =
    client_refines_server encoding decode_b false server_a incremented set_a n (codes "{}")
      (codes "[b]") (whole 2) (whole 9) (whole 6) (whole 4) (n ∷ []) (none ∷ []) n-IsWord
      (unfold text_eq in refl) (rw got refl) refl refl incs refl refl sets (unfold len in refl)
      (rw listed (n-IsWord, tt)) (rw listed (unfold lookup in (refl, tt))) (rw listed (refl, tt))
      (n-IsWord, tt) refl (word (codes "{}") (unfold has_byte in refl) (unfold has_byte in refl))
      refl (word (codes "[b]") (unfold has_byte in refl) (unfold has_byte in refl)) refl refl

abbrev numbered : ℕ → ℕ
numbered k = k

pool_bounds_example :
    (length (new_pool numbered 2).idle + 0 ≡ 2)
    × ((k : ℕ) → (put k (new_pool numbered 2) ≡ none) ↔ (◌≡◌ {A = ℕ} 0 0))
    × (((Pool.get true (new_pool numbered 2)).0 ≡ timed_out) ↔ (◌≡◌ {A = ℕ} 0 2))
pool_bounds_example = pool_bounds numbered 2 (new_pool numbered 2) 0 made
