-- ===== src/Pool/Bounds.antt =====
-- Clients that are got and put back.
use dcounter.Base.{
  ℕ, zero, suc, ◌+◌, ◌≡◌, refl, Bool, true, none, some, [], ◌∷◌, length, length-append, arith, ◌↔◌,
}
use dcounter.Pool.{Pool, got, timed_out, fill, new_pool, get, put}

module _ {Api : Type 0} where
  -- The pool and the number of clients that are out. A client is put back by who got it.
  pub data Step : Pool Api × ℕ → Pool Api × ℕ → Type 0 where
    gets :
        {p p' : Pool Api} (timeout : Bool) (a : Api) (out : ℕ)
        → get timeout p ≡ (got a, p')
        → Step (p, out) (p', suc out)
    puts : {p p' : Pool Api} (a : Api) (out : ℕ) → put a p ≡ some p' → Step (p, suc out) (p', out)

  pub data Reach (make : ℕ → Api) (size : ℕ) : Pool Api × ℕ → Type 0 where
    made : Reach make size (new_pool make size, 0)
    next : {s s' : Pool Api × ℕ} → Reach make size s → Step s s' → Reach make size s'

  -- Every client is either in the pool or out.
  abbrev AllThere : ℕ → Pool Api × ℕ → Type 0
  AllThere size (p, out) = (p.size ≡ size) × (length p.idle + out ≡ size)

  length-fill : (make : ℕ → Api) (n : ℕ) → length (fill make n) ≡ n
  unfolding fill
  length-fill make zero = refl
  length-fill make (suc n) =
      omega (arith, length-fill make n, length-append (fill make n) (make n ∷ []))

  get-counts :
      (timeout : Bool) (p p' : Pool Api) (a : Api)
      → get timeout p ≡ (got a, p')
      → (p'.size ≡ p.size) × (length p'.idle + 1 ≡ length p.idle)
  unfolding get
  get-counts timeout p p' a e = ground arith

  put-counts :
      (a : Api) (p p' : Pool Api)
      → put a p ≡ some p'
      → (p'.size ≡ p.size) × (length p'.idle ≡ length p.idle + 1)
  unfolding put
  put-counts a p p' e = ground (arith, length-append p.idle (a ∷ []))

  Step-AllThere : {size : ℕ} {s s' : Pool Api × ℕ} → Step s s' → AllThere size s → AllThere size s'
  Step-AllThere (gets {p} {p'} timeout a out e) h = omega (arith, get-counts timeout p p' a e, h)
  Step-AllThere (puts {p} {p'} a out e) h = omega (arith, put-counts a p p' e, h)

  Reach-AllThere :
      (make : ℕ → Api) (size : ℕ) {s : Pool Api × ℕ} → Reach make size s → AllThere size s
  unfolding new_pool
  Reach-AllThere make size made = (refl, omega (arith, length-fill make size))
  Reach-AllThere make size (next r step) = Step-AllThere step (Reach-AllThere make size r)

  -- After any gets and puts of a new pool, the clients in it and those that are out are as many as
  -- its size; a `Put` waits exactly if none is out; and with a positive timeout `Get` times out
  -- exactly if all of them are out.
  pub pool_bounds :
      (make : ℕ → Api) (size : ℕ) (p : Pool Api) (out : ℕ)
      → Reach make size (p, out)
      → (length p.idle + out ≡ size)
        × ((a : Api) → (put a p ≡ none) ↔ (out ≡ 0))
        × (((get true p).0 ≡ timed_out) ↔ (out ≡ size))
  unfolding put get
  pool_bounds make size p out r =
      let there = Reach-AllThere make size r in
      (
        there.1,
        λ a. (λ full. ground (arith, there, full), λ none_out. ground (arith, there, none_out)),
        (λ e. ground (arith, there, e), λ e. ground (arith, there, e)),
      )
