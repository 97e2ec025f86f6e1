-- ===== src/Server/Setting/Interleaved.antt =====
-- What `set` does when other handlers run between its turns (server/api.go).
use mathlib.Core.List.{append-nil, append_assoc}
use dcounter.Base.{◌≡◌, ◌∙◌, sym, ap, Option, none, some, List, [], ◌∷◌, ◌++◌, Text}
use dcounter.Base.Result.{Error}
use dcounter.Float.{Float}
use dcounter.Wire.{FloatRep}
use dcounter.Server.{Server, Node}
use dcounter.Server.Local.{set, reset_for, send_resets}
use dcounter.Server.Setting.{Setting, begin_set, set_turn, set_end, Sets}

module _ ⦃rep : FloatRep⦄ (counter : Text) where
  abbrev pub all_turns : (Node → Text → Option Error) → List Node → Setting → Setting
  all_turns send [] q = q
  all_turns send (node ∷ nodes) q = all_turns send nodes (set_turn counter send q)

  all_turns-errs :
      (send : Node → Text → Option Error) (nodes : List Node) (errs : List Error) (s : Server)
      → all_turns send nodes (record { nodes = nodes; errs = errs; server = s })
        ≡ record { nodes = []; errs = errs ++ send_resets send counter s nodes; server = s }
  unfolding set_turn send_resets
  all_turns-errs send [] errs s =
      ap (λ es. record { nodes = []; errs = es; server = s }) (sym (append-nil errs))
  all_turns-errs send (node ∷ nodes) errs s =
      let here : List Error = elim (reset_for counter s node) [
        | none ↦ []
        | some payload ↦ elim (send node payload) [ none ↦ [] | some e ↦ e ∷ [] ]
      ] in
      all_turns-errs send nodes (errs ++ here) s
      ∙ ap (λ es. record { nodes = []; errs = es; server = s })
          (append_assoc errs here (send_resets send counter s nodes))

  -- With no other handler in between, the turns and the end of `set` are `set` at once.
  pub set_end-all_turns :
      (send : Node → Text → Option Error) (nodes : List Node) (v : Float) (s : Server)
      → set_end counter v (all_turns send nodes (begin_set nodes s)) ≡ set send nodes counter v s
  unfolding set set_end
  set_end-all_turns send nodes v s = ap (set_end counter v) (all_turns-errs send nodes [] s)
