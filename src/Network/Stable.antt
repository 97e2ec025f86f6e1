-- ===== src/Network/Stable.antt =====
-- A server of a cluster that is up to date stays so (server/memberlist.go, server/server.go).
use dcounter.Base.{
  Bool, ◌≡◌, ◌∙◌, refl, sym, ap, true, false, ◌&&◌, not, Text, text_eq, eq_of_text_eq, arith,
  Bool-cases, inl, inr,
}
use dcounter.Base.Int.{ℤ}
use dcounter.Wire.{FloatRep}
use dcounter.Server.{lookup_counter}
use dcounter.Server.Local.{get}
use dcounter.Server.MergeState.{merge_opt}
use dcounter.Network.{Network, Step, Reach, unmoved, next, fresh}
use dcounter.Network.Below.{merge_opt-stays}
use dcounter.Network.Absorb.{owned, copy, IsBounded}
use dcounter.Network.Reached.{Step-IsBounded, Reach-IsBounded}
use dcounter.Network.Converge.{sum_of_by_counters}
use dcounter.Network.Owners.{is_increment, Step-moves, Step-still}

module _ ⦃rep : FloatRep⦄ where
  -- No client increments in a run.
  abbrev pub is_quiet : {a b : Network} → Reach a b → Bool
  is_quiet unmoved = true
  is_quiet (next r step) = is_quiet r && not (is_increment step)

  -- A server that holds every counter as its owner has it.
  abbrev pub IsSynced : Network → Text → Type 0
  IsSynced net i = (m n : Text) → copy net i m n ≡ owned net m n

  Step-IsSynced :
      {a b : Network} (step : Step a b) (i : Text)
      → IsBounded a
      → is_increment step ≡ false
      → IsSynced a i
      → IsSynced b i
  Step-IsSynced {a} {b} step i h e synced m n =
      let (j, s, absorbs, moves) = Step-moves step h e in
      let still = Step-still step h e m n in
      ap (λ x. lookup_counter m n x.replicas) (moves i) ∙ elim (Bool-cases (text_eq j i)) [
        | inl here ↦ rw here (
            absorbs.merged m n
            ∙ ap (λ o. merge_opt o (absorbs.came m n))
                (ap (λ k. copy a k m n) (eq_of_text_eq j i here) ∙ synced m n)
            ∙ merge_opt-stays (owned a m n) (absorbs.came m n) (absorbs.came_below m n)
            ∙ sym still)
        | inr there ↦ rw there (synced m n ∙ sym still)
      ]

  Reach-IsSynced :
      {a b : Network} (r : Reach a b) (i : Text)
      → IsBounded a
      → is_quiet r ≡ true
      → IsSynced a i
      → IsBounded b × IsSynced b i × ((m n : Text) → owned b m n ≡ owned a m n)
  Reach-IsSynced unmoved i h quiet synced = (h, synced, λ m n. refl)
  Reach-IsSynced (next r step) i h quiet synced =
      let (h', synced', same) = Reach-IsSynced r i h (ground (arith, quiet)) synced in
      let silent : is_increment step ≡ false = ground (arith, quiet) in
      (
        Step-IsBounded step h',
        Step-IsSynced step i h' silent synced',
        λ m n. Step-still step h' silent m n ∙ same m n,
      )

  -- Once a server of a cluster of started servers holds every counter as its owner has it, it does
  -- so after any further steps without an increment, with messages and full states that are old,
  -- late or come again: no owner's counter changes, and `get` goes on to answer what it did.
  pub IsSynced-stays :
      (at : Text → ℤ) (net net' : Network) (i : Text)
      → Reach (fresh at) net
      → IsSynced net i
      → (q : Reach net net') → is_quiet q ≡ true
      → IsSynced net' i
        × ((m n : Text) → owned net' m n ≡ owned net m n)
        × ((name : Text) → (get name (net'.servers i)).0 ≡ (get name (net.servers i)).0)
  unfolding get
  IsSynced-stays at net net' i r synced q quiet =
      let h = Reach-IsBounded at net r in
      let (h', synced', same) = Reach-IsSynced q i h quiet synced in
      (
        synced',
        same,
        λ name.
            sum_of_by_counters name (net'.servers i).replicas (net.servers i).replicas
              (h'.well_formed i).replicas_ok.replicas_map (h.well_formed i).replicas_ok.replicas_map
              (λ m. synced' m name ∙ same m name ∙ sym (synced m name)),
      )
