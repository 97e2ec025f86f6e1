-- ===== src/Server/Maps.antt =====
-- How the writes to the replicated counters and their lookups go together.
use dcounter.Base.{
  ◌≡◌, ◌&&◌, none, some, [], Text, text_eq, text_eq_iff, text_eq_refl, if◌then◌else◌, arith,
  Option-cases, inl, inr,
}
use dcounter.Base.Dict.{Dict, lookup, insert, lookup-insert}
use dcounter.Counter.{Counter, merge}
use dcounter.Server.{Counters, lookup_counter, store_counter, ensure_member}
use dcounter.Server.Messages.{merge_at}

pub lookup_counter-insert :
    (member name k : Text) (counters : Dict Counter) (replicas : Counters)
    → lookup_counter member name (insert k counters replicas)
      ≡ (if text_eq k member then lookup name counters else lookup_counter member name replicas)
unfolding lookup_counter
lookup_counter-insert member name k counters replicas =
    ground (arith, lookup-insert member k counters replicas)

pub store_counter_lem :
    (member name : Text) (c : Counter) (replicas : Counters) {counters : Dict Counter}
    → lookup member replicas ≡ some counters
    → store_counter member name c replicas ≡ some (insert member (insert name c counters) replicas)
unfolding store_counter
store_counter_lem member name c replicas e = ground arith

pub lookup_counter-some :
    (member name : Text) (replicas : Counters) (counters : Dict Counter)
    → lookup member replicas ≡ some counters
    → lookup_counter member name replicas ≡ lookup name counters
unfolding lookup_counter
lookup_counter-some member name replicas counters e = ground arith

pub lookup_counter-none :
    (member name : Text) (replicas : Counters)
    → lookup member replicas ≡ none
    → lookup_counter member name replicas ≡ none
unfolding lookup_counter
lookup_counter-none member name replicas e = ground arith

-- A write to one counter is read back, and all other counters are as before.
pub lookup_counter-store_counter :
    (m n member name : Text) (c : Counter) (replicas replicas' : Counters)
    → store_counter member name c replicas ≡ some replicas'
    → lookup_counter m n replicas'
      ≡ (if text_eq member m && text_eq name n then some c else lookup_counter m n replicas)
unfolding store_counter
lookup_counter-store_counter m n member name c replicas replicas' e =
    elim (Option-cases (lookup member replicas)) [
      | inl missing ↦ ground arith
      | inr (counters, found) ↦ ground (
        arith,
        lookup_counter-insert m n member (insert name c counters) replicas,
        lookup-insert n name c counters,
        text_eq_iff member m,
        lookup_counter-some member n replicas counters found,
      )
    ]

-- A member that is made sure of has no new counters.
pub lookup_counter-ensure_member :
    (m n member : Text) (replicas : Counters)
    → lookup_counter m n (ensure_member member replicas) ≡ lookup_counter m n replicas
unfolding ensure_member
lookup_counter-ensure_member m n member replicas = elim (Option-cases (lookup member replicas)) [
  | inl missing ↦ ground (
    arith,
    lookup_counter-insert m n member [] replicas,
    lookup_counter-none member n replicas missing,
    text_eq_iff member m,
  )
  | inr (counters, found) ↦ ground arith
]

contains-ensure_member :
    (member : Text) (replicas : Counters)
    → (counters : Dict Counter) × (lookup member (ensure_member member replicas) ≡ some counters)
unfolding ensure_member
contains-ensure_member member replicas = elim (Option-cases (lookup member replicas)) [
  | inl missing ↦ ([], ground (arith, lookup-insert member member [] replicas, text_eq_refl member))
  | inr (counters, found) ↦ (counters, ground arith)
]

-- After the merge of one counter, that counter is the merge of what was there, and all others are
-- as before.
pub lookup_counter-merge_at :
    (m n member name : Text) (c : Counter) (replicas : Counters)
    → lookup_counter m n (merge_at member name c replicas) ≡ (
        if text_eq member m && text_eq name n
        then some (merge (lookup_counter member name replicas) c)
        else lookup_counter m n replicas)
unfolding merge_at
lookup_counter-merge_at m n member name c replicas =
    let there = ensure_member member replicas in
    let (counters, found) = contains-ensure_member member replicas in
    let c' = merge (lookup_counter member name there) c in
    ground (
      arith,
      store_counter_lem member name c' there found,
      lookup_counter-store_counter m n member name c' there
          (insert member (insert name c' counters) there)
          (store_counter_lem member name c' there found),
      lookup_counter-ensure_member m n member replicas,
      lookup_counter-ensure_member member name member replicas,
    )

-- The merge is a write to the member's map, which is made sure of first.
pub merge_at_lem :
    (member name : Text) (c : Counter) (replicas : Counters)
    → (counters : Dict Counter) × (merge_at member name c replicas
        ≡ insert member
            (insert name (merge (lookup_counter member name replicas) c) counters)
            (ensure_member member replicas))
unfolding merge_at
merge_at_lem member name c replicas =
    let there = ensure_member member replicas in
    let (counters, found) = contains-ensure_member member replicas in
    (
      counters,
      ground (
        arith,
        store_counter_lem member name (merge (lookup_counter member name there) c) there found,
        lookup_counter-ensure_member member name member replicas,
      ),
    )

-- A counter that is found stands in a map that is there.
pub map_of_counter :
    (member name : Text) (c : Counter) (replicas : Counters)
    → lookup_counter member name replicas ≡ some c
    → (counters : Dict Counter) × (lookup member replicas ≡ some counters)
map_of_counter member name c replicas e = elim (Option-cases (lookup member replicas)) [
  | inl missing ↦ ground (arith, lookup_counter-none member name replicas missing)
  | inr found ↦ found
]
