-- ===== src/Server/Run/Invariants.antt =====
-- Every handler keeps the server's state well formed, so that a server that was started never
-- panics at a write to a map that is not there.
use dcounter.Base.{
  ℕ, ◌≡◌, refl, ◌==◌, Option, none, some, [], ◌∷◌, Text, text_eq_refl, if◌then◌else◌, arith,
  Bool-cases, inl, inr,
}
use dcounter.Base.Int.{ℤ}
use dcounter.Base.Dict.{Dict, lookup, insert, delete, insert-IsMap, delete-IsMap}
use dcounter.Base.Result.{Error, Result-cases}
use dcounter.Float.{Float}
use dcounter.Counter.{Counter}
use dcounter.Wire.{FloatRep}
use dcounter.Server.{Server, States, Counters, Node, start_check}
use dcounter.Server.Gossip.{
  active_since, decode_meta, node_addr, notify_join, notify_leave, notify_update, update_consistent,
  merge_members, merge_remote_state,
}
use dcounter.Server.Lifecycle.{new_server, start, join, stop, kill, load, write_all}
use dcounter.Server.Lists.{AreMaps}
use dcounter.Server.Invariant.{
  HasReplicas, IsWellFormed, contains-insert, contains-insert_self, ensure_member-HasReplicas,
  merge_replicas-HasReplicas, write_all-HasReplicas, merge_members-IsMap,
}
use dcounter.Server.Run.{
  Step, inc_called, set_called, got_message, node_joined, node_left, node_updated, checked,
  got_state, join_called, loaded, stop_called, kill_called,
}
use dcounter.Server.Run.Client.{inc-IsWellFormed, set-IsWellFormed}
use dcounter.Server.Run.Messages.{notify_msg-IsWellFormed}

module _ ⦃rep : FloatRep⦄ where
  notify_join-IsWellFormed :
      (now : ℤ) (node : Node) (s : Server) → IsWellFormed s → IsWellFormed (notify_join now node s)
  unfolding notify_join
  notify_join-IsWellFormed now node s h = record {
    replicas_ok = h.replicas_ok;
    self_member = contains-insert s.name node.name (active_since now) s.members h.self_member;
    members_map = insert-IsMap node.name (active_since now) s.members h.members_map;
    reconnects_map = delete-IsMap (node_addr node) s.reconnects h.reconnects_map;
  }

  left_by : ℤ → Node → ℕ → Server → Server
  left_by now node leaving s =
      if leaving == 0
      then record s { reconnects = insert (node_addr node) tt s.reconnects }
      else record s {
        members = insert node.name (record { active = 0; when = now }) s.members;
        reconnects = delete (node_addr node) s.reconnects;
      }

  left_by-IsWellFormed :
      (now : ℤ) (node : Node) (leaving : ℕ) (s : Server)
      → IsWellFormed s
      → IsWellFormed (left_by now node leaving s)
  unfolding left_by
  left_by-IsWellFormed now node leaving s h = elim (Bool-cases (leaving == 0)) [
    | inl crashed ↦ rw crashed (record {
      replicas_ok = h.replicas_ok;
      self_member = h.self_member;
      members_map = h.members_map;
      reconnects_map = insert-IsMap (node_addr node) tt s.reconnects h.reconnects_map;
    })
    | inr leaves ↦ rw leaves (record {
      replicas_ok = h.replicas_ok;
      self_member =
          contains-insert s.name node.name (record { active = 0; when = now }) s.members
            h.self_member;
      members_map =
          insert-IsMap node.name (record { active = 0; when = now }) s.members h.members_map;
      reconnects_map = delete-IsMap (node_addr node) s.reconnects h.reconnects_map;
    })
  ]

  start_check-IsWellFormed : (s : Server) → IsWellFormed s → IsWellFormed (start_check s)
  unfolding start_check
  start_check-IsWellFormed s h = record {
    replicas_ok = h.replicas_ok;
    self_member = h.self_member;
    members_map = h.members_map;
    reconnects_map = h.reconnects_map;
  }

  notify_leave-IsWellFormed :
      (now : ℤ) (node : Node) (s : Server) → IsWellFormed s → IsWellFormed (notify_leave now node s)
  unfolding notify_leave left_by
  notify_leave-IsWellFormed now node s h = elim (Result-cases (decode_meta node.meta)) [
    | inr (x, bad) ↦ rw (notify_leave, bad) h
    | inl (leaving, read) ↦
        rw (notify_leave, read)
          (start_check-IsWellFormed (left_by now node leaving s)
            (left_by-IsWellFormed now node leaving s h))
  ]

  got_state-IsWellFormed :
      (now : ℤ) (members : States) (replicas : Counters) (s : Server)
      → IsWellFormed s
      → IsWellFormed (merge_remote_state now (some (members, replicas)) s)
  unfolding merge_remote_state
  got_state-IsWellFormed now members replicas s h =
      let members' = insert s.name (active_since now) (merge_members members s.members) in
      record {
        replicas_ok = merge_replicas-HasReplicas s.name members' replicas s.replicas h.replicas_ok;
        self_member =
            contains-insert_self s.name (active_since now) (merge_members members s.members);
        members_map =
            insert-IsMap s.name (active_since now) (merge_members members s.members)
              (merge_members-IsMap members s.members h.members_map);
        reconnects_map = h.reconnects_map;
      }

  fresh-HasReplicas : (name : Text) → HasReplicas name ((name, []) ∷ [])
  fresh-HasReplicas name = record {
    own = unfold lookup in ground (arith, text_eq_refl name);
    replicas_map = (unfold lookup in refl, tt);
    counters_maps = (tt, tt);
  }

  join-IsWellFormed :
      (joined : Option Error) (now : ℤ) (s : Server)
      → IsWellFormed s
      → IsWellFormed (join joined now s).0
  unfolding join
  join-IsWellFormed joined now s h = record {
    replicas_ok = fresh-HasReplicas s.name;
    self_member = unfold lookup in ground (arith, text_eq_refl s.name);
    members_map = (unfold lookup in refl, tt);
    reconnects_map = tt;
  }

  load-IsWellFormed :
      (doc : Counters) (decoded : Option Error) (s : Server)
      → AreMaps doc
      → IsWellFormed s
      → IsWellFormed (load none doc decoded s).0
  unfolding load
  load-IsWellFormed doc decoded s maps h = record {
    replicas_ok =
        ensure_member-HasReplicas s.name s.name (write_all doc s.replicas)
          (write_all-HasReplicas s.name doc s.replicas maps h.replicas_ok);
    self_member = h.self_member;
    members_map = h.members_map;
    reconnects_map = h.reconnects_map;
  }

  stop-IsWellFormed :
      (left_err down e : Option Error) (s s' : Server)
      → IsWellFormed s
      → stop left_err down s ≡ some (s', e)
      → IsWellFormed s'
  unfolding stop
  stop-IsWellFormed left_err down e s s' h done = ground arith

  kill-IsWellFormed :
      (down e : Option Error) (s s' : Server)
      → IsWellFormed s
      → kill down s ≡ some (s', e)
      → IsWellFormed s'
  unfolding kill
  kill-IsWellFormed down e s s' h done = ground arith

  pub Step-IsWellFormed : {s s' : Server} → Step s s' → IsWellFormed s → IsWellFormed s'
  unfolding update_consistent notify_update
  Step-IsWellFormed {s} {s'} (inc_called name diff v e) h = inc-IsWellFormed name diff v s s' h e
  Step-IsWellFormed {s} {s'} (set_called send nodes name v old errs e) h =
      set-IsWellFormed send nodes name v old errs s s' h e
  Step-IsWellFormed {s} (got_message msg) h = notify_msg-IsWellFormed msg s h
  Step-IsWellFormed {s} (node_joined now node) h = notify_join-IsWellFormed now node s h
  Step-IsWellFormed {s} (node_left now node) h = notify_leave-IsWellFormed now node s h
  Step-IsWellFormed {s} (node_updated node) h = start_check-IsWellFormed s h
  Step-IsWellFormed (checked nodes k e) h = record {
    replicas_ok = h.replicas_ok;
    self_member = h.self_member;
    members_map = h.members_map;
    reconnects_map = h.reconnects_map;
  }
  Step-IsWellFormed {s} (got_state now members replicas) h =
      got_state-IsWellFormed now members replicas s h
  Step-IsWellFormed {s} (join_called e now) h = join-IsWellFormed e now s h
  Step-IsWellFormed {s} (loaded doc decoded maps) h = load-IsWellFormed doc decoded s maps h
  Step-IsWellFormed {s} {s'} (stop_called left_err down e done) h =
      stop-IsWellFormed left_err down e s s' h done
  Step-IsWellFormed {s} {s'} (kill_called down e done) h = kill-IsWellFormed down e s s' h done

pub start-IsWellFormed :
    (name : Text) (now : ℤ) → IsWellFormed (start none none now (new_server name)).0
unfolding start new_server insert
start-IsWellFormed name now = record {
  replicas_ok = record {
    own = contains-insert_self name [] [];
    replicas_map = (unfold lookup in refl, tt);
    counters_maps = (tt, tt);
  };
  self_member = contains-insert_self name (active_since now) [];
  members_map = (unfold lookup in refl, tt);
  reconnects_map = tt;
}
