-- ===== src/Server/Run/Client.antt =====
-- The client operations keep the server's state well formed.
use mathlib.Core.Path.{subst}
use dcounter.Base.{◌≡◌, ◌⊎◌, Option, none, some, List, Text, arith, Option-cases, inl, inr}
use dcounter.Base.Result.{Error}
use dcounter.Float.{Float}
use dcounter.Counter.{Counter, inc_counter, set_counter}
use dcounter.Wire.{FloatRep}
use dcounter.Server.{Server, Counters, Node, lookup_counter, store_counter, broadcast_change}
use dcounter.Server.Local.{inc, set, set_own}
use dcounter.Server.Reads.{own_counter}
use dcounter.Server.Invariant.{IsWellFormed, store_counter-HasReplicas}

module _ ⦃rep : FloatRep⦄ where
  pub stored-IsWellFormed :
      (s : Server) (m name : Text) (c : Counter) (r : Counters)
      → IsWellFormed s
      → store_counter m name c s.replicas ≡ some r
      → IsWellFormed (record s { replicas = r })
  stored-IsWellFormed s m name c r h e = record {
    replicas_ok = store_counter-HasReplicas s.name m name c s.replicas r h.replicas_ok e;
    self_member = h.self_member;
    members_map = h.members_map;
    reconnects_map = h.reconnects_map;
  }

  pub broadcast_change-IsWellFormed :
      (name : Text) (c : Counter) (s : Server)
      → IsWellFormed s
      → IsWellFormed (broadcast_change name c s)
  unfolding broadcast_change
  broadcast_change-IsWellFormed name c s h = record {
    replicas_ok = h.replicas_ok;
    self_member = h.self_member;
    members_map = h.members_map;
    reconnects_map = h.reconnects_map;
  }

  -- A write to the server's own counter that is then put into the queue.
  abbrev pub own_write : Text → Counter → Server → Option Server
  own_write name c s = elim (store_counter s.name name c s.replicas) [
    | none ↦ none
    | some replicas ↦ some (broadcast_change name c (record s { replicas = replicas }))
  ]

  pub own_write-IsWellFormed :
      (name : Text) (c : Counter) (s s' : Server)
      → IsWellFormed s
      → own_write name c s ≡ some s'
      → IsWellFormed s'
  own_write-IsWellFormed name c s s' h e =
      elim (Option-cases (store_counter s.name name c s.replicas)) [
        | inl missing ↦ ground (arith, missing, e)
        | inr (r, stored) ↦ subst IsWellFormed (ground (arith, stored, e)) (
            broadcast_change-IsWellFormed name c (record s { replicas = r })
              (stored-IsWellFormed s s.name name c r h stored))
      ]

  pub inc-own_write :
      (name : Text) (diff v : Float) (s s' : Server)
      → inc name diff s ≡ some (v, s')
      → own_write name (inc_counter diff (own_counter name s)) s ≡ some s'
  unfolding inc
  inc-own_write name diff v s s' e = ground arith

  pub inc-IsWellFormed :
      (name : Text) (diff v : Float) (s s' : Server)
      → IsWellFormed s
      → inc name diff s ≡ some (v, s')
      → IsWellFormed s'
  inc-IsWellFormed name diff v s s' h e =
      own_write-IsWellFormed name (inc_counter diff (own_counter name s)) s s' h
        (inc-own_write name diff v s s' e)

  pub set-own_write :
      (send : Node → Text → Option Error) (nodes : List Node) (name : Text) (v old : Float)
      (errs : List (Option Error)) (s s' : Server)
      → set send nodes name v s ≡ some (old, errs, s')
      → (s ≡ s')
        ⊎ (own_write name (set_counter v (lookup_counter s.name name s.replicas)) s ≡ some s')
  unfolding set set_own
  set-own_write send nodes name v old errs s s' e = ground arith

  pub set-IsWellFormed :
      (send : Node → Text → Option Error) (nodes : List Node) (name : Text) (v old : Float)
      (errs : List (Option Error)) (s s' : Server)
      → IsWellFormed s
      → set send nodes name v s ≡ some (old, errs, s')
      → IsWellFormed s'
  set-IsWellFormed send nodes name v old errs s s' h e =
      elim (set-own_write send nodes name v old errs s s' e) [
        | inl same ↦ subst IsWellFormed same h
        | inr written ↦
            own_write-IsWellFormed name (set_counter v (lookup_counter s.name name s.replicas)) s s'
              h written
      ]
