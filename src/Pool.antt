-- ===== src/Pool.antt =====
-- The connection pool of pool/pool.go: a buffered channel of clients.
pub mod Bounds
use dcounter.Base.{
  ℕ, zero, suc, ◌+◌, Bool, true, false, Option, none, some, List, [], ◌∷◌, ◌++◌, length, ltb,
  if◌then◌else◌,
}

-- The channel: its capacity, and the clients in it, the oldest first.
pub record Pool (Api : Type 0) : Type 0 where
  pub size : ℕ
  pub idle : List Api

-- What `Get` comes to: a client, the error of a timeout, or no return until a `Put`.
pub data Got (Api : Type 0) : Type 0 where
  got : Api → Got Api
  timed_out : Got Api
  waits : Got Api

module _ {Api : Type 0} where
  -- The loop of `New`, with the client that `api.New` makes in each round.
  unfoldable pub fill : (ℕ → Api) → ℕ → List Api
  fill make zero = []
  fill make (suc n) = fill make n ++ make n ∷ []

  -- `New`
  unfoldable pub new_pool : (ℕ → Api) → ℕ → Pool Api
  unfolding fill
  new_pool make size = record { size = size; idle = fill make size }

  -- `Get`, where no other goroutine puts a client back while it waits. A positive timeout ends in
  -- an error if no client comes; with any other, `Get` waits on.
  unfoldable pub get : Bool → Pool Api → Got Api × Pool Api
  get timeout p = elim p.idle [
    | [] ↦ (elim timeout [ true ↦ timed_out | false ↦ waits ], p)
    | a ∷ idle ↦ (got a, record p { idle = idle })
  ]

  -- `Put`: `none` if the channel is full, where it would wait for a `Get`.
  unfoldable pub put : Api → Pool Api → Option (Pool Api)
  put a p = if ltb (length p.idle) p.size then some (record p { idle = p.idle ++ a ∷ [] }) else none
