-- ===== src/Server/Run.antt =====
-- A server from its start on: any sequence of client calls, messages and calls of memberlist.
pub mod Client
pub mod Messages
pub mod Invariants
use mathlib.Core.Path.{subst}
use dcounter.Base.{
  ℕ, suc, ◌≡◌, ◌≢◌, ◌⊎◌, ◌∙◌, refl, sym, ap, Bool, true, false, ◌==◌, Option, none, some, List, [],
  ◌∷◌, Text, text_eq, text_eq_refl, if◌then◌else◌, arith, Option-cases, Bool-cases, inl, inr,
}
use dcounter.Base.Int.{ℤ}
use dcounter.Base.Dict.{
  Dict, lookup, insert, delete, contains, IsMap, lookup-insert, insert-IsMap, delete-IsMap,
}
use dcounter.Base.Result.{Error, Result, ok, err, Result-cases}
use dcounter.Float.{Float}
use dcounter.Counter.{Counter, inc_counter, set_counter, reset_counter}
use dcounter.Wire.{FloatRep, read_string, read_counter}
use dcounter.Server.{
  Server, States, Counters, Node, lookup_counter, store_counter, broadcast_change, start_check,
}
use dcounter.Server.Local.{inc, set, set_own, send_resets}
use dcounter.Server.Messages.{
  apply_reset, merge_at, read_change, read_reset, read_message, notify_msg,
}
use dcounter.Server.Gossip.{
  active_since, decode_meta, node_addr, notify_join, notify_leave, notify_update, update_consistent,
  merge_members, merge_replicas, merge_remote_state,
}
use dcounter.Server.Lifecycle.{new_server, start, join, stop, kill, load}
use dcounter.Server.Reads.{own_counter}
use dcounter.Server.Lists.{AreMaps}
use dcounter.Server.Invariant.{
  HasReplicas, IsWellFormed, contains-insert, contains-insert_self, store_counter-HasReplicas,
  ensure_member-HasReplicas, insert-HasReplicas, merge_at-HasReplicas, merge_replicas-HasReplicas,
  write_all-HasReplicas, merge_members-IsMap,
}

module _ ⦃rep : FloatRep⦄ where
  -- One handler's effect on the server. What Go decodes into maps holds each key once.
  pub data Step : Server → Server → Type 0 where
    inc_called :
        {s s' : Server} (name : Text) (diff v : Float) → inc name diff s ≡ some (v, s') → Step s s'
    set_called :
        {s s' : Server} (send : Node → Text → Option Error) (nodes : List Node) (name : Text)
        (v old : Float) (errs : List (Option Error))
        → set send nodes name v s ≡ some (old, errs, s')
        → Step s s'
    got_message : {s : Server} (msg : Text) → Step s (notify_msg msg s)
    node_joined : {s : Server} (now : ℤ) (node : Node) → Step s (notify_join now node s)
    node_left : {s : Server} (now : ℤ) (node : Node) → Step s (notify_leave now node s)
    node_updated : {s : Server} (node : Node) → Step s (notify_update node s)
    checked :
        {s : Server} (nodes : List Node) (k : ℕ)
        → s.checks ≡ suc k
        → Step s (record (update_consistent nodes s) { checks = k })
    got_state :
        {s : Server} (now : ℤ) (members : States) (replicas : Counters)
        → Step s (merge_remote_state now (some (members, replicas)) s)
    join_called : {s : Server} (joined : Option Error) (now : ℤ) → Step s (join joined now s).0
    loaded :
        {s : Server} (doc : Counters) (decoded : Option Error)
        → AreMaps doc
        → Step s (load none doc decoded s).0
    stop_called :
        {s s' : Server} (left down e : Option Error) → stop left down s ≡ some (s', e) → Step s s'
    kill_called : {s s' : Server} (down e : Option Error) → kill down s ≡ some (s', e) → Step s s'

  -- The servers that `New` and a `Start` without an error lead to.
  pub data Reach (name : Text) (now : ℤ) : Server → Type 0 where
    started : Reach name now (start none none now (new_server name)).0
    next : {s s' : Server} → Reach name now s → Step s s' → Reach name now s'
