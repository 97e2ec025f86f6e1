-- ===== src/Server/Setting.antt =====
-- `set` of server/api.go turn by turn: it takes the lock for a node at a time, and lets it go while
-- a reset is sent, so that other handlers run in between.
pub mod Interleaved
use dcounter.Base.{Option, none, some, List, [], ◌∷◌, ◌++◌, map, Text}
use dcounter.Base.Result.{Error}
use dcounter.Float.{Float, zero_float}
use dcounter.Wire.{FloatRep}
use dcounter.Server.{Server, Node}
use dcounter.Server.Local.{reset_for, set_own}
use dcounter.Server.Run.{Step}

-- The nodes that the loop has still to come to, the errors so far, and the server.
pub record Setting : Type 0 where
  pub nodes : List Node
  pub errs : List Error
  pub server : Server

abbrev pub begin_set : List Node → Server → Setting
begin_set nodes s = record { nodes = nodes; errs = []; server = s }

module _ ⦃rep : FloatRep⦄ (name : Text) where
  -- The loop's body for the next node, with SendToTCP as it is then.
  unfoldable pub set_turn : (Node → Text → Option Error) → Setting → Setting
  unfolding reset_for
  set_turn send q = elim q.nodes [
    | [] ↦ q
    | node ∷ nodes ↦ record q {
      nodes = nodes;
      errs = q.errs ++ elim (reset_for name q.server node) [
        | none ↦ []
        | some payload ↦ elim (send node payload) [ none ↦ [] | some e ↦ e ∷ [] ]
      ];
    }
  ]

  -- What comes after the loop.
  unfoldable pub set_end : Float → Setting → Option (Float × List (Option Error) × Server)
  unfolding set_own
  set_end v q = elim q.errs [
    | [] ↦ elim (set_own name v q.server) [
      | none ↦ none
      | some (old, s') ↦ some (old, none ∷ [], s')
    ]
    | e ∷ es ↦ some (zero_float, map some (e ∷ es), q.server)
  ]

  -- Turns of the loop, and steps of other handlers.
  pub data Sets (p : Setting) : Setting → Type 0 where
    set_began : Sets p p
    set_turned :
        {q : Setting} (send : Node → Text → Option Error) → Sets p q → Sets p (set_turn send q)
    other_handled :
        {q : Setting} {s : Server} → Sets p q → Step q.server s → Sets p (record q { server = s })
