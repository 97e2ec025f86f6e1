-- ===== src/Server/Local.antt =====
-- The client operations of server/api.go: get, inc, set, list.
use dcounter.Base.{Bool, Option, none, some, List, [], ◌∷◌, ◌++◌, map, Text, text_eq, if◌then◌else◌}
use dcounter.Base.Dict.{Dict, lookup, insert}
use dcounter.Base.Result.{Error}
use dcounter.Float.{Float, zero_float, ◌+F◌, eqb}
use dcounter.Counter.{Counter, empty_counter, value, inc_counter, set_counter}
use dcounter.Wire.{FloatRep, reset_bytes}
use dcounter.Server.{Server, Counters, Node, lookup_counter, store_counter, broadcast_change}

-- The loop of `get` over the members' maps.
unfoldable pub sum_of : Text → Counters → Float → Float
unfolding lookup
sum_of name [] total = total
sum_of name ((_, counters) ∷ replicas) total =
    sum_of name replicas (elim (lookup name counters) [ none ↦ total | some c ↦ total +F value c ])

-- `get`
unfoldable pub get : Text → Server → Float × Bool
unfolding sum_of
get name s = (sum_of name s.replicas zero_float, s.consistent)

module _ ⦃rep : FloatRep⦄ where
  -- `inc`: the new value of the server's own counter; `none` is the panic of a write to a nil map.
  unfoldable pub inc : Text → Float → Server → Option (Float × Server)
  unfolding lookup_counter store_counter broadcast_change
  inc name diff s =
      let c : Counter = elim (lookup_counter s.name name s.replicas) [
        | none ↦ empty_counter
        | some c ↦ c
      ] in
      let c' = inc_counter diff c in
      elim (store_counter s.name name c' s.replicas) [
        | none ↦ none
        | some replicas ↦
            some (value c', broadcast_change name c' (record s { replicas = replicas }))
      ]

  -- What the loop of `set` sends to a node: nothing to the server itself, nor to one of which it
  -- has no such counter.
  unfoldable pub reset_for : Text → Server → Node → Option Text
  unfolding lookup_counter text_eq
  reset_for name s node =
      if text_eq node.name s.name then none else elim (lookup_counter node.name name s.replicas) [
        | none ↦ none
        | some c ↦ some (reset_bytes name c)
      ]

  -- The loop of `set`: the errors of SendToTCP, in order.
  unfoldable pub send_resets : (Node → Text → Option Error) → Text → Server → List Node → List Error
  unfolding reset_for
  send_resets send name s [] = []
  send_resets send name s (node ∷ nodes) =
      elim (reset_for name s node) [
        | none ↦ []
        | some payload ↦ elim (send node payload) [ none ↦ [] | some e ↦ e ∷ [] ]
      ]
      ++ send_resets send name s nodes

  -- The end of `set`, once every reset is sent: the old value, and the new counter.
  unfoldable pub set_own : Text → Float → Server → Option (Float × Server)
  unfolding lookup_counter store_counter broadcast_change
  set_own name v s =
      let own = lookup_counter s.name name s.replicas in
      let old : Float = elim own [ none ↦ zero_float | some c ↦ value c ] in
      let c' = set_counter v own in
      elim (store_counter s.name name c' s.replicas) [
        | none ↦ none
        | some replicas ↦ some (old, broadcast_change name c' (record s { replicas = replicas }))
      ]

  -- `set`, with `send` for memberlist's SendToTCP and `nodes` for its Members: the old value and
  -- the errors. `none` is a panic.
  unfoldable pub set :
      (Node → Text → Option Error)
      → List Node
      → Text
      → Float
      → Server
      → Option (Float × List (Option Error) × Server)
  unfolding send_resets set_own
  set send nodes name v s = elim (send_resets send name s nodes) [
    | [] ↦ elim (set_own name v s) [ none ↦ none | some (old, s') ↦ some (old, none ∷ [], s') ]
    | e ∷ es ↦ some (zero_float, map some (e ∷ es), s)
  ]

-- What a lookup in a `map[string]float64` gives.
abbrev pub or_zero : Option Float → Float
or_zero none = zero_float
or_zero (some v) = v

-- `l[name] += v`
unfoldable pub add_at : Text → Float → Dict Float → Dict Float
unfolding lookup insert
add_at name v l = insert name (or_zero (lookup name l) +F v) l

-- The two loops of `list` that add up the values.
unfoldable pub add_counters : Dict Counter → Dict Float → Dict Float
unfolding add_at
add_counters [] l = l
add_counters ((name, c) ∷ counters) l = add_counters counters (add_at name (value c) l)

unfoldable pub add_replicas : Counters → Dict Float → Dict Float
unfolding add_counters
add_replicas [] l = l
add_replicas ((_, counters) ∷ replicas) l = add_replicas replicas (add_counters counters l)

-- The last loop of `list`, which deletes the counters of value 0.
unfoldable pub drop_zeros : Dict Float → Dict Float
drop_zeros [] = []
drop_zeros ((name, v) ∷ l) =
    let rest = drop_zeros l in if eqb v zero_float then rest else (name, v) ∷ rest

-- `list`
unfoldable pub list : Server → Dict Float
unfolding add_replicas drop_zeros
list s = drop_zeros (add_replicas s.replicas [])
