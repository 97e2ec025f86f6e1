-- ===== src/Server/Totals.antt =====
-- The total that `get` adds up, member by member.
use dcounter.Base.{
  ◌≡◌, ◌∙◌, refl, sym, ap, true, false, Option, none, some, [], ◌∷◌, Text, text_eq, if◌then◌else◌,
  arith, Option-cases, Bool-cases, inl, inr,
}
use dcounter.Base.Dict.{Dict, lookup, insert, lookup-insert_self}
use dcounter.Float.{Float, zero_float, ◌+F◌}
use dcounter.Float.Laws.{+F_assoc, +F_comm, zero_+F, +F_zero, swap_last}
use dcounter.Counter.{Counter, value, merge}
use dcounter.Server.{Counters, lookup_counter, ensure_member}
use dcounter.Server.Messages.{merge_at}
use dcounter.Server.Maps.{lookup_counter-none, lookup_counter-ensure_member, merge_at_lem}
use dcounter.Server.Local.{sum_of}

-- What a counter that may be missing adds to a total.
abbrev pub value_or_zero : Option Counter → Float
value_or_zero none = zero_float
value_or_zero (some c) = value c

abbrev pub step_of : Float → Option Counter → Float
step_of total none = total
step_of total (some c) = total +F value c

pub step_of_lem : (total : Float) (o : Option Counter) → step_of total o ≡ total +F value_or_zero o
step_of_lem total none = sym (+F_zero total)
step_of_lem total (some c) = refl

pub sum_of-cons :
    (name member : Text) (counters : Dict Counter) (replicas : Counters) (total : Float)
    → sum_of name ((member, counters) ∷ replicas) total
      ≡ sum_of name replicas (total +F value_or_zero (lookup name counters))
unfolding sum_of
sum_of-cons name member counters replicas total = elim (Option-cases (lookup name counters)) [
  | inl e ↦ rw e (ap (sum_of name replicas) (sym (+F_zero total)))
  | inr (c, e) ↦ rw e
]

-- The loop starts from any total.
pub sum_of-from :
    (name : Text) (replicas : Counters) (total : Float)
    → sum_of name replicas total ≡ total +F sum_of name replicas zero_float
sum_of-from name [] total = unfold sum_of in sym (+F_zero total)
sum_of-from name ((member, counters) ∷ replicas) total =
    let v = value_or_zero (lookup name counters) in
    sum_of-cons name member counters replicas total
    ∙ sum_of-from name replicas (total +F v)
    ∙ +F_assoc total v (sum_of name replicas zero_float)
    ∙ ap (◌+F◌ total) (
        sym (
          sum_of-cons name member counters replicas zero_float
          ∙ ap (sum_of name replicas) (zero_+F v)
          ∙ sum_of-from name replicas v))

pub sum_of-head :
    (name member : Text) (counters : Dict Counter) (replicas : Counters)
    → sum_of name ((member, counters) ∷ replicas) zero_float
      ≡ value_or_zero (lookup name counters) +F sum_of name replicas zero_float
sum_of-head name member counters replicas =
    sum_of-cons name member counters replicas zero_float
    ∙ ap (sum_of name replicas) (zero_+F (value_or_zero (lookup name counters)))
    ∙ sum_of-from name replicas (value_or_zero (lookup name counters))

exchange : (n r o : Float) → n +F r +F o ≡ o +F r +F n
exchange n r o = swap_last n r o ∙ ap (λ x. x +F r) (+F_comm n o) ∙ swap_last o n r

insert-there :
    (k j : Text) (v w : Dict Counter) (m : Counters)
    → text_eq j k ≡ false
    → insert k v ((j, w) ∷ m) ≡ (j, w) ∷ insert k v m
unfolding insert
insert-there k j v w m e = ground arith

insert-here :
    (k j : Text) (v w : Dict Counter) (m : Counters)
    → text_eq j k ≡ true
    → insert k v ((j, w) ∷ m) ≡ (j, v) ∷ m
unfolding insert
insert-here k j v w m e = ground arith

lookup_counter-cons :
    (k n j : Text) (w : Dict Counter) (m : Counters)
    → lookup_counter k n ((j, w) ∷ m) ≡ (if text_eq j k then lookup n w else lookup_counter k n m)
unfolding lookup_counter
lookup_counter-cons k n j w m = ground arith

-- A write to one member's map exchanges its part of the total.
pub sum_of-insert :
    (name member : Text) (counters : Dict Counter) (replicas : Counters)
    → sum_of name (insert member counters replicas) zero_float
        +F value_or_zero (lookup_counter member name replicas)
      ≡ sum_of name replicas zero_float +F value_or_zero (lookup name counters)
sum_of-insert name member counters [] =
    unfold insert lookup_counter in
    ap (λ x. x +F zero_float) (sum_of-head name member counters [])
    ∙ exchange (value_or_zero (lookup name counters)) (sum_of name [] zero_float) zero_float
    ∙ ap (λ x. x +F value_or_zero (lookup name counters)) (zero_+F (sum_of name [] zero_float))
sum_of-insert name member counters ((m, old) ∷ replicas) =
    let new = value_or_zero (lookup name counters) in
    let was = value_or_zero (lookup name old) in
    let rest = sum_of name replicas zero_float in
    elim (Bool-cases (text_eq m member)) [
      | inl here ↦ rw (insert-here member m counters old replicas here) (
          rw (sum_of-head name m counters replicas, sum_of-head name m old replicas)
            (rw (lookup_counter-cons member name m old replicas, here) (exchange new rest was)))
      | inr there ↦ rw (insert-there member m counters old replicas there) (
          rw
            (
              sum_of-head name m (old) (insert member counters replicas),
              sum_of-head name m old replicas,
            )
            (rw (lookup_counter-cons member name m old replicas, there)
              (+F_assoc was (sum_of name (insert member counters replicas) zero_float)
                  (value_or_zero (lookup_counter member name replicas))
                ∙ ap (◌+F◌ was) (sum_of-insert name member counters replicas)
                ∙ sym (+F_assoc was rest new))))
    ]

-- A write that leaves the member's counter of `name` as it was leaves the total.
pub sum_of-insert_same :
    (name member : Text) (counters : Dict Counter) (replicas : Counters)
    → lookup_counter member name replicas ≡ lookup name counters
    → sum_of name (insert member counters replicas) zero_float ≡ sum_of name replicas zero_float
sum_of-insert_same name member counters [] e =
    let absent : none ≡ lookup name counters = unfold lookup_counter in e in
    unfold insert in
    sum_of-head name member counters []
    ∙ ap (λ o. value_or_zero o +F sum_of name [] zero_float) (sym absent)
    ∙ zero_+F (sum_of name [] zero_float)
sum_of-insert_same name member counters ((m, old) ∷ replicas) e =
    let rest = sum_of name replicas zero_float in
    let was = lookup_counter-cons member name m old replicas in
    elim (Bool-cases (text_eq m member)) [
      | inl here ↦ rw (insert-here member m counters old replicas here) (
          rw (sum_of-head name m counters replicas, sum_of-head name m old replicas)
            (ap (λ o. value_or_zero o +F rest) (sym e ∙ was ∙ rw here)))
      | inr there ↦ rw (insert-there member m counters old replicas there) (
          rw
            (
              sum_of-head name m old (insert member counters replicas),
              sum_of-head name m old replicas,
            )
            (ap (◌+F◌ (value_or_zero (lookup name old)))
              (sum_of-insert_same name member counters replicas (ground (arith, was, there, e)))))
    ]

sum_of-ensure_member :
    (name member : Text) (replicas : Counters)
    → sum_of name (ensure_member member replicas) zero_float ≡ sum_of name replicas zero_float
unfolding ensure_member
sum_of-ensure_member name member replicas = elim (Option-cases (lookup member replicas)) [
  | inl missing ↦
      rw (ensure_member, missing)
        (sum_of-insert_same name member [] replicas
          (lookup_counter-none member name replicas missing ∙ unfold lookup in refl))
  | inr (counters, found) ↦ rw (ensure_member, found) refl
]

-- The merge of one member's counter exchanges its part of the total.
pub sum_of-merge_at :
    (member name : Text) (c : Counter) (replicas : Counters)
    → sum_of name (merge_at member name c replicas) zero_float
        +F value_or_zero (lookup_counter member name replicas)
      ≡ sum_of name replicas zero_float +F value (merge (lookup_counter member name replicas) c)
sum_of-merge_at member name c replicas =
    let c' = merge (lookup_counter member name replicas) c in
    let there = ensure_member member replicas in
    let (counters, merged) = merge_at_lem member name c replicas in
    ap (λ r. sum_of name r zero_float +F value_or_zero (lookup_counter member name replicas)) merged
    ∙ ap
        (λ o.
          sum_of name (insert member (insert name c' counters) there) zero_float +F value_or_zero o)
        (sym (lookup_counter-ensure_member member name member replicas))
    ∙ sum_of-insert name member (insert name c' counters) there
    ∙ ap (λ x. x +F value_or_zero (lookup name (insert name c' counters)))
        (sum_of-ensure_member name member replicas)
    ∙ ap (λ o. sum_of name replicas zero_float +F value_or_zero o)
        (lookup-insert_self name c' counters)
