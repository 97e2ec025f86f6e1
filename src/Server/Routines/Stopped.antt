-- ===== src/Server/Routines/Stopped.antt =====
-- Stop's wait for `listen` and `reconnect` ends, and not before both have (server/server.go,
-- server/api.go).
use dcounter.Base.{◌≡◌, ◌∙◌, refl, true, Option, none, some, List, [], ◌∷◌, Text, arith, inl, inr}
use dcounter.Base.Int.{ℤ}
use dcounter.Base.Result.{Error, ok, Result-cases}
use dcounter.Wire.{FloatRep, read_string, read_counter}
use dcounter.Float.{Float}
use dcounter.Counter.{Counter}
use dcounter.Server.{Server, States, Counters, Node, broadcast_change, start_check}
use dcounter.Server.Local.{inc, set, set_own}
use dcounter.Server.Messages.{read_message, notify_msg, read_change, read_reset, apply_reset}
use dcounter.Server.Gossip.{
  notify_join, notify_leave, notify_update, update_consistent, merge_remote_state,
}
use dcounter.Server.Lifecycle.{join, stop, kill, load}
use dcounter.Server.Run.{
  Step, inc_called, set_called, got_message, node_joined, node_left, node_updated, checked,
  got_state, join_called, loaded, stop_called, kill_called,
}

module _ ⦃rep : FloatRep⦄ where
  inc-stopped :
      (name : Text) (diff v : Float) (s s' : Server)
      → inc name diff s ≡ some (v, s')
      → s'.stopped ≡ s.stopped
  unfolding inc broadcast_change
  inc-stopped name diff v s s' e = ground (arith, e)

  set-stopped :
      (send : Node → Text → Option Error) (nodes : List Node) (name : Text) (v old : Float)
      (errs : List (Option Error)) (s s' : Server)
      → set send nodes name v s ≡ some (old, errs, s')
      → s'.stopped ≡ s.stopped
  unfolding set set_own broadcast_change
  set-stopped send nodes name v old errs s s' e = ground (arith, e)

  apply_reset-stopped :
      (name : Text) (c : Counter) (s : Server) → (apply_reset name c s).stopped ≡ s.stopped
  unfolding apply_reset broadcast_change
  apply_reset-stopped name c s = ground arith

  read_reset-stopped :
      (reader : Text) (s s' : Server) → read_reset reader s ≡ ok s' → s'.stopped ≡ s.stopped
  unfolding read_reset
  read_reset-stopped reader s s' e = elim (Result-cases (read_string reader)) [
    | inl ((name, rest), read) ↦ elim (Result-cases (read_counter rest)) [
      | inl ((c, _), read') ↦ ground (arith, e, read, read', apply_reset-stopped name c s)
      | inr (x, fails) ↦ ground (arith, e, read, fails)
    ]
    | inr (x, fails) ↦ ground (arith, e, fails)
  ]

  read_change-stopped :
      (reader : Text) (s s' : Server) → read_change reader s ≡ ok s' → s'.stopped ≡ s.stopped
  unfolding read_change
  read_change-stopped reader s s' e = ground (arith, e)

  notify_msg-stopped : (msg : Text) (s : Server) → (notify_msg msg s).stopped ≡ s.stopped
  unfolding notify_msg read_message read_reset read_change
  notify_msg-stopped [] s = refl
  notify_msg-stopped (t ∷ reader) s =
      ground (arith, read_reset-stopped reader s, read_change-stopped reader s)

  notify_leave-stopped :
      (now : ℤ) (node : Node) (s : Server) → (notify_leave now node s).stopped ≡ s.stopped
  unfolding notify_leave start_check
  notify_leave-stopped now node s = ground arith

  merge_remote_state-stopped :
      (now : ℤ) (state : Option (States × Counters)) (s : Server)
      → (merge_remote_state now state s).stopped ≡ s.stopped
  unfolding merge_remote_state start_check
  merge_remote_state-stopped now none s = refl
  merge_remote_state-stopped now (some (members, replicas)) s = refl

  -- No step opens the channel `stop` again.
  pub Step-stopped : {s s' : Server} → Step s s' → s.stopped ≡ true → s'.stopped ≡ true
  unfolding notify_join notify_update start_check update_consistent join load stop kill
  Step-stopped {s} (inc_called name diff v e) h = inc-stopped name diff v s _ e ∙ h
  Step-stopped {s} (set_called send nodes name v old errs e) h =
      set-stopped send nodes name v old errs s _ e ∙ h
  Step-stopped {s} (got_message msg) h = notify_msg-stopped msg s ∙ h
  Step-stopped {s} (node_joined now node) h = h
  Step-stopped {s} (node_left now node) h = notify_leave-stopped now node s ∙ h
  Step-stopped {s} (node_updated node) h = h
  Step-stopped {s} (checked nodes k e) h = h
  Step-stopped {s} (got_state now members replicas) h =
      merge_remote_state-stopped now (some (members, replicas)) s ∙ h
  Step-stopped {s} (join_called joined now) h = h
  Step-stopped {s} (loaded doc decoded maps) h = h
  Step-stopped {s} (stop_called left down e r) h = ground (arith, r, h)
  Step-stopped {s} (kill_called down e r) h = ground (arith, r, h)
