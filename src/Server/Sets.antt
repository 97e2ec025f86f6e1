-- ===== src/Server/Sets.antt =====
-- What set does, when every reset could be sent and when one could not (server/api.go).
use dcounter.Base.{
  ◌≡◌, ◌≢◌, ◌∙◌, refl, ap, Option, none, some, List, [], ◌∷◌, map, Text, arith, Bool-cases, inl,
  inr,
}
use dcounter.Base.Int.{neg_ℤ, int_laws}
use dcounter.Base.Dict.{Dict, lookup, insert}
use dcounter.Base.Result.{Error}
use dcounter.Float.{Float, fin, zero_float, ◌+F◌, ◌-F◌, neg, gt}
use dcounter.Float.Laws.{+F_zero}
use dcounter.Counter.{Counter, value, set_counter, up_of, down_of}
use dcounter.Wire.{FloatRep}
use dcounter.Server.{Server, Node, lookup_counter, broadcast_change}
use dcounter.Server.Local.{send_resets, set_own, set}
use dcounter.Server.Totals.{value_or_zero}

neg_zero : neg zero_float ≡ zero_float
unfolding neg neg_ℤ
neg_zero = refl

neg-neg : (a : Float) → zero_float -F neg a ≡ a
unfolding neg ◌-F◌ ◌+F◌
neg-neg (fin x) = ap fin (omega int_laws)
neg-neg a = ground arith

up-minus-down : (v : Float) → up_of v -F down_of v ≡ v
unfolding up_of down_of
up-minus-down v = elim (Bool-cases (gt v zero_float)) [
  | inl positive ↦ rw positive (unfold ◌-F◌ in ap (◌+F◌ v) neg_zero ∙ +F_zero v)
  | inr other ↦ rw other (neg-neg v)
]

-- The counter that is set has the value, also if that is NaN or infinite.
pub value-set_counter : (v : Float) (o : Option Counter) → value (set_counter v o) ≡ v
unfolding value set_counter
value-set_counter v none = up-minus-down v
value-set_counter v (some c) = up-minus-down v

module _ ⦃rep : FloatRep⦄ where
  pub set_own_lem :
      (name : Text) (v : Float) (s : Server) (own : Dict Counter)
      → lookup s.name s.replicas ≡ some own
      → let c' = set_counter v (lookup_counter s.name name s.replicas) in
        set_own name v s
        ≡ some (
          value_or_zero (lookup_counter s.name name s.replicas),
          broadcast_change name c'
              (record s { replicas = insert s.name (insert name c' own) s.replicas }),
        )
  unfolding set_own
  set_own_lem name v s own found = ground (arith, found)

  -- When a reset cannot be sent, `set` answers the errors of the nodes that failed, and the server
  -- is as it was.
  pub set_fails :
      (send : Node → Text → Option Error) (nodes : List Node) (name : Text) (v : Float) (s : Server)
      → send_resets send name s nodes ≢ []
      → set send nodes name v s ≡ some (zero_float, map some (send_resets send name s nodes), s)
  unfolding set
  set_fails send nodes name v s failed = ground arith

  pub send_resets-none :
      (name : Text) (s : Server) (nodes : List Node) → send_resets (λ _ _. none) name s nodes ≡ []
  unfolding send_resets
  send_resets-none name s [] = refl
  send_resets-none name s (node ∷ nodes) = ground (arith, send_resets-none name s nodes)
