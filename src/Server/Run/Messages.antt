-- ===== src/Server/Run/Messages.antt =====
-- The messages keep the server's state well formed.
use mathlib.Core.Path.{subst}
use dcounter.Base.{
  ℕ, ◌≡◌, ◌⊎◌, ◌==◌, some, [], ◌∷◌, Text, arith, Option-cases, Bool-cases, inl, inr,
}
use dcounter.Base.Dict.{contains}
use dcounter.Base.Result.{ok, Result-cases}
use dcounter.Counter.{Counter, reset_counter}
use dcounter.Wire.{FloatRep, read_string, read_counter}
use dcounter.Server.{Server, lookup_counter, store_counter}
use dcounter.Server.Messages.{
  apply_reset, merge_at, read_change, read_reset, read_message, notify_msg,
}
use dcounter.Server.Invariant.{IsWellFormed, merge_at-HasReplicas}
use dcounter.Server.Run.Client.{own_write, own_write-IsWellFormed}

module _ ⦃rep : FloatRep⦄ where
  pub apply_reset-own_write :
      (name : Text) (c : Counter) (s : Server)
      → (s ≡ apply_reset name c s)
        ⊎ ((d : Counter) × (own_write name d s ≡ some (apply_reset name c s)))
  unfolding apply_reset
  apply_reset-own_write name c s = elim (Option-cases (lookup_counter s.name name s.replicas)) [
    | inl missing ↦ inl (ground (arith, missing))
    | inr (oc, found) ↦ elim (Bool-cases (c.revision == oc.revision)) [
      | inl same ↦ elim (Option-cases (store_counter s.name name (reset_counter c oc) s.replicas)) [
        | inl lost ↦ inl (ground (arith, found, same, lost))
        | inr (r, stored) ↦ inr (reset_counter c oc, ground (arith, found, same, stored))
      ]
      | inr moved ↦ inl (ground (arith, found, moved))
    ]
  ]

  pub apply_reset-IsWellFormed :
      (name : Text) (c : Counter) (s : Server)
      → IsWellFormed s
      → IsWellFormed (apply_reset name c s)
  apply_reset-IsWellFormed name c s h = elim (apply_reset-own_write name c s) [
    | inl same ↦ subst IsWellFormed same h
    | inr (d, written) ↦ own_write-IsWellFormed name d s (apply_reset name c s) h written
  ]

  pub read_reset-IsWellFormed :
      (reader : Text) (s s' : Server)
      → IsWellFormed s
      → read_reset reader s ≡ ok s'
      → IsWellFormed s'
  unfolding read_reset
  read_reset-IsWellFormed reader s s' h e = elim (Result-cases (read_string reader)) [
    | inr (x, bad) ↦ ground (arith, bad, e)
    | inl ((name, rest), line) ↦ elim (Result-cases (read_counter rest)) [
      | inr (x, bad) ↦ ground (arith, line, bad, e)
      | inl ((c, _), read) ↦
          subst IsWellFormed (ground (arith, line, read, e)) (apply_reset-IsWellFormed name c s h)
    ]
  ]

  pub merged-IsWellFormed :
      (m n : Text) (c : Counter) (s : Server)
      → IsWellFormed s
      → IsWellFormed (record s { replicas = merge_at m n c s.replicas })
  merged-IsWellFormed m n c s h = record {
    replicas_ok = merge_at-HasReplicas s.name m n c s.replicas h.replicas_ok;
    self_member = h.self_member;
    members_map = h.members_map;
    reconnects_map = h.reconnects_map;
  }

  pub read_change-IsWellFormed :
      (reader : Text) (s s' : Server)
      → IsWellFormed s
      → read_change reader s ≡ ok s'
      → IsWellFormed s'
  unfolding read_change
  read_change-IsWellFormed reader s s' h e = elim (Result-cases (read_string reader)) [
    | inr (x, bad) ↦ ground (arith, bad, e)
    | inl ((m, rest), line) ↦ elim (Bool-cases (contains m s.members)) [
      | inr unknown ↦ ground (arith, line, unknown, e)
      | inl known ↦ elim (Result-cases (read_string rest)) [
        | inr (x, bad) ↦ ground (arith, line, known, bad, e)
        | inl ((n, rest'), line') ↦ elim (Result-cases (read_counter rest')) [
          | inr (x, bad) ↦ ground (arith, line, known, line', bad, e)
          | inl ((c, _), read) ↦
              subst IsWellFormed (ground (arith, line, known, line', read, e))
                (merged-IsWellFormed m n c s h)
        ]
      ]
    ]
  ]

  pub read_message-IsWellFormed :
      (t : ℕ) (reader : Text) (s s' : Server)
      → IsWellFormed s
      → read_message t reader s ≡ ok s'
      → IsWellFormed s'
  unfolding read_message
  read_message-IsWellFormed t reader s s' h e = elim (Bool-cases (t == 0)) [
    | inl reset ↦ read_reset-IsWellFormed reader s s' h (ground (arith, reset, e))
    | inr other ↦ elim (Bool-cases (t == 1)) [
      | inl change ↦ read_change-IsWellFormed reader s s' h (ground (arith, other, change, e))
      | inr unknown ↦ ground (arith, other, unknown, e)
    ]
  ]

  pub notify_msg-IsWellFormed :
      (msg : Text) (s : Server) → IsWellFormed s → IsWellFormed (notify_msg msg s)
  unfolding notify_msg
  notify_msg-IsWellFormed [] s h = h
  notify_msg-IsWellFormed (t ∷ reader) s h = elim (Result-cases (read_message t reader s)) [
    | inl (s', done) ↦
        subst IsWellFormed (ground (arith, done)) (read_message-IsWellFormed t reader s s' h done)
    | inr (x, failed) ↦ subst IsWellFormed (ground (arith, failed)) h
  ]
