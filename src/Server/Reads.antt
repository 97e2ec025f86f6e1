-- ===== src/Server/Reads.antt =====
-- What inc does to the totals that get answers (server/api.go).
use dcounter.Base.{
  ◌≡◌, ◌∙◌, refl, sym, ap, true, false, Option, none, some, Text, text_eq, eq_of_text_eq,
  text_eq_refl, if◌then◌else◌, arith, Option-cases, Bool-cases, inl, inr,
}
use dcounter.Base.Dict.{Dict, lookup, insert, contains, lookup-insert_self, lookup-insert_ne}
use dcounter.Base.Int.{neg_ℤ, ◌+ℤ◌}
use dcounter.Float.{Float, zero_float, ◌+F◌, ◌-F◌}
use dcounter.Float.Laws.{IsFinite, +F_assoc, +F_comm, +F_cancel}
use dcounter.Counter.{Counter, empty_counter, value, inc_counter}
use dcounter.Counter.Growth.{IsFiniteCounter, inc_counter_grows, -F-IsFinite}
use dcounter.Wire.{FloatRep}
use dcounter.Server.{Server, lookup_counter, broadcast_change}
use dcounter.Server.Local.{sum_of, get, inc}
use dcounter.Server.Maps.{lookup_counter-insert, lookup_counter-some}
use dcounter.Server.Totals.{value_or_zero, sum_of-insert, sum_of-insert_same}

-- The server has a map for its own counters: without one, inc and set panic.
abbrev pub HasOwn : Server → Type 0
HasOwn s = contains s.name s.replicas ≡ true

pub own_map : (s : Server) → HasOwn s → (own : Dict Counter) × (lookup s.name s.replicas ≡ some own)
own_map s h = elim (Option-cases (lookup s.name s.replicas)) [
  | inl missing ↦ ground arith
  | inr found ↦ found
]

-- The server's own counter of a name, zero if it has none.
abbrev pub or_empty : Option Counter → Counter
or_empty none = empty_counter
or_empty (some c) = c

abbrev pub own_counter : Text → Server → Counter
own_counter name s = or_empty (lookup_counter s.name name s.replicas)

pub value-or_empty : (o : Option Counter) → value_or_zero o ≡ value (or_empty o)
unfolding value ◌-F◌ neg_ℤ ◌+ℤ◌
value-or_empty none = refl
value-or_empty (some c) = refl

pub value-own_counter :
    (name : Text) (s : Server)
    → value_or_zero (lookup_counter s.name name s.replicas) ≡ value (own_counter name s)
value-own_counter name s = value-or_empty (lookup_counter s.name name s.replicas)

pub value-IsFinite : (c : Counter) → IsFiniteCounter c → IsFinite (value c)
unfolding value
value-IsFinite c h = -F-IsFinite c.up c.down h.up_finite h.down_finite

-- A write to the server's own counter of `name` moves its total by what it moves the counter, and
-- no other total.
pub get_own :
    (name : Text) (c : Counter) (s : Server) (own : Dict Counter)
    → lookup s.name s.replicas ≡ some own
    → sum_of name (insert s.name (insert name c own) s.replicas) zero_float
        +F value (own_counter name s)
      ≡ sum_of name s.replicas zero_float +F value c
get_own name c s own found =
    ap (λ x. sum_of name (insert s.name (insert name c own) s.replicas) zero_float +F x)
      (sym (value-own_counter name s))
    ∙ sum_of-insert name s.name (insert name c own) s.replicas
    ∙ ap (λ o. sum_of name s.replicas zero_float +F value_or_zero o) (lookup-insert_self name c own)

get_own_ne :
    (name other : Text) (c : Counter) (s : Server) (own : Dict Counter)
    → lookup s.name s.replicas ≡ some own
    → text_eq name other ≡ false
    → sum_of other (insert s.name (insert name c own) s.replicas) zero_float
      ≡ sum_of other s.replicas zero_float
get_own_ne name other c s own found ne =
    sum_of-insert_same other s.name (insert name c own) s.replicas (
      lookup_counter-some s.name other s.replicas own found
      ∙ sym (lookup-insert_ne other name c own ne))

pub own_counter_stored :
    (name : Text) (c : Counter) (s : Server) (own : Dict Counter)
    → lookup_counter s.name name (insert s.name (insert name c own) s.replicas) ≡ some c
own_counter_stored name c s own =
    lookup_counter-insert s.name name s.name (insert name c own) s.replicas
    ∙ ground (arith, text_eq_refl s.name, lookup-insert_self name c own)

get_own_grown :
    (name : Text) (diff : Float) (c' : Counter) (s : Server) (own : Dict Counter)
    → lookup s.name s.replicas ≡ some own
    → IsFiniteCounter (own_counter name s)
    → value c' ≡ value (own_counter name s) +F diff
    → sum_of name (insert s.name (insert name c' own) s.replicas) zero_float
      ≡ sum_of name s.replicas zero_float +F diff
get_own_grown name diff c' s own found finite grown =
    let c = own_counter name s in
    let before = sum_of name s.replicas zero_float in
    +F_cancel (sum_of name (insert s.name (insert name c' own) s.replicas) zero_float)
      (before +F diff) (value c) (value-IsFinite c finite)
      (get_own name c' s own found
        ∙ ap (◌+F◌ before) (grown ∙ +F_comm (value c) diff)
        ∙ sym (+F_assoc before diff (value c)))

module _ ⦃rep : FloatRep⦄ where
  -- `inc` in a server that has its own map.
  pub inc_lem :
      (name : Text) (diff : Float) (s : Server) (own : Dict Counter)
      → lookup s.name s.replicas ≡ some own
      → let c' = inc_counter diff (own_counter name s) in
        inc name diff s
        ≡ some (
          value c',
          broadcast_change name c'
              (record s { replicas = insert s.name (insert name c' own) s.replicas }),
        )
  unfolding inc
  inc_lem name diff s own found = ground (arith, found)

  pub inc_adds :
      (name : Text) (diff : Float) (s : Server)
      → HasOwn s
      → IsFinite diff
      → IsFiniteCounter (own_counter name s)
      → (s' : Server) × (inc name diff s ≡ some (value (own_counter name s) +F diff, s'))
        × ((other : Text)
            → get other s' ≡ (
                if text_eq name other then ((get name s).0 +F diff, s.consistent) else get other s))
        × (s'.changes ≡ (broadcast_change name (own_counter name s') s).changes)
        × (own_counter name s' ≡ inc_counter diff (own_counter name s))
        × HasOwn s'
  unfolding get broadcast_change
  inc_adds name diff s h finite own_finite =
      let (own, found) = own_map s h in
      let c = own_counter name s in
      let c' = inc_counter diff c in
      let grown = (inc_counter_grows diff c finite own_finite).2 in
      let replicas' = insert s.name (insert name c' own) s.replicas in
      let s' = broadcast_change name c' (record s { replicas = replicas' }) in
      (
        s',
        inc_lem name diff s own found ∙ ap (λ v. some (v, s')) grown,
        λ other. elim (Bool-cases (text_eq name other)) [
          | inl same ↦
              rw (same, ← eq_of_text_eq name other same)
                (ap (λ v. (v, s.consistent))
                  (get_own_grown name diff c' s own found own_finite grown))
          | inr ne ↦ rw ne (ap (λ v. (v, s.consistent)) (get_own_ne name other c' s own found ne))
        ],
        ap (λ o. (broadcast_change name (or_empty o) s).changes)
            (sym (own_counter_stored name c' s own)),
        ap or_empty (own_counter_stored name c' s own),
        ground (arith, lookup-insert_self s.name (insert name c' own) s.replicas),
      )
