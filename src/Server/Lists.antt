-- ===== src/Server/Lists.antt =====
-- `list` answers what `get` answers, less the zeros (server/api.go).
use dcounter.Base.{
  ◌≡◌, ◌∙◌, refl, sym, ap, Option, none, some, [], ◌∷◌, Text, text_eq, text_eq_iff, eq_of_text_eq,
  if◌then◌else◌, arith, Bool-cases, inl, inr,
}
use dcounter.Base.Dict.{Dict, lookup, IsMap, lookup-insert, insert-IsMap}
use dcounter.Float.{Float, zero_float, ◌+F◌, eqb}
use dcounter.Float.Laws.{+F_zero}
use dcounter.Counter.{Counter, value}
use dcounter.Counter.Growth.{All}
use dcounter.Server.{Server, Counters}
use dcounter.Server.Local.{
  sum_of, get, or_zero, add_at, add_counters, add_replicas, drop_zeros, list,
}
use dcounter.Server.Totals.{value_or_zero, sum_of-cons}

-- Every member's map is a map.
abbrev pub AreMaps : Counters → Type 0
AreMaps = All (λ e. IsMap e.1)

-- The running value of a name in the map that `list` builds.
at : Text → Dict Float → Float
at name l = or_zero (lookup name l)

at-add_at :
    (n name : Text) (v : Float) (l : Dict Float)
    → at n (add_at name v l) ≡ (if text_eq name n then at n l +F v else at n l)
unfolding at add_at
at-add_at n name v l =
    ground (arith, lookup-insert n name (or_zero (lookup name l) +F v) l, text_eq_iff name n)

at-add_counters :
    (n : Text) (counters : Dict Counter) (l : Dict Float)
    → IsMap counters
    → at n (add_counters counters l) ≡ at n l +F value_or_zero (lookup n counters)
unfolding add_counters lookup
at-add_counters n [] l h = sym (+F_zero (at n l))
at-add_counters n ((name, c) ∷ counters) l h =
    at-add_counters n counters (add_at name (value c) l) h.1
    ∙ ap (λ x. x +F value_or_zero (lookup n counters)) (at-add_at n name (value c) l)
    ∙ elim (Bool-cases (text_eq name n)) [
      | inl same ↦ rw same (
          ap (λ o. at n l +F value c +F value_or_zero o)
            (ap (λ k. lookup k counters) (sym (eq_of_text_eq name n same)) ∙ h.0)
          ∙ +F_zero (at n l +F value c))
      | inr other ↦ rw other
    ]

at-add_replicas :
    (n : Text) (replicas : Counters) (l : Dict Float)
    → AreMaps replicas
    → at n (add_replicas replicas l) ≡ sum_of n replicas (at n l)
unfolding add_replicas
at-add_replicas n [] l h = unfold sum_of in refl
at-add_replicas n ((member, counters) ∷ replicas) l h =
    at-add_replicas n replicas (add_counters counters l) h.1
    ∙ ap (sum_of n replicas) (at-add_counters n counters l h.0)
    ∙ sym (sum_of-cons n member counters replicas (at n l))

add_counters-IsMap :
    (counters : Dict Counter) (l : Dict Float) → IsMap l → IsMap (add_counters counters l)
unfolding add_counters
add_counters-IsMap [] l h = h
add_counters-IsMap ((name, c) ∷ counters) l h =
    add_counters-IsMap counters (add_at name (value c) l)
      (unfold add_at in insert-IsMap name (or_zero (lookup name l) +F value c) l h)

add_replicas-IsMap :
    (replicas : Counters) (l : Dict Float) → IsMap l → IsMap (add_replicas replicas l)
unfolding add_replicas
add_replicas-IsMap [] l h = h
add_replicas-IsMap ((_, counters) ∷ replicas) l h =
    add_replicas-IsMap replicas (add_counters counters l) (add_counters-IsMap counters l h)

-- What is listed of a total.
abbrev nonzero : Float → Option Float
nonzero v = if eqb v zero_float then none else some v

lookup-cons :
    (n k : Text) (v : Float) (l : Dict Float)
    → lookup n ((k, v) ∷ l) ≡ (if text_eq k n then some v else lookup n l)
unfolding lookup
lookup-cons n k v l = refl

drop_zeros-cons :
    (n k : Text) (v : Float) (l : Dict Float)
    → lookup n (drop_zeros ((k, v) ∷ l)) ≡ (
        if eqb v zero_float
        then lookup n (drop_zeros l)
        else (if text_eq k n then some v else lookup n (drop_zeros l)))
unfolding drop_zeros
drop_zeros-cons n k v l = elim (Bool-cases (eqb v zero_float)) [
  | inl z ↦ rw z refl
  | inr nz ↦ rw nz (lookup-cons n k v (drop_zeros l))
]

nonzero-none : {o : Option Float} → o ≡ none → nonzero (or_zero o) ≡ none
unfolding eqb
nonzero-none e = rw e refl

lookup-drop_zeros :
    (n : Text) (l : Dict Float) → IsMap l → lookup n (drop_zeros l) ≡ nonzero (or_zero (lookup n l))
lookup-drop_zeros n [] h = unfold drop_zeros lookup eqb in refl
lookup-drop_zeros n ((k, v) ∷ l) h = elim (Bool-cases (text_eq k n)) [
  | inl same ↦
      let gone : lookup n l ≡ none = ap (λ j. lookup j l) (sym (eq_of_text_eq k n same)) ∙ h.0 in
      ground (
        arith,
        drop_zeros-cons n k v l,
        lookup-cons n k v l,
        same,
        lookup-drop_zeros n l h.1 ∙ nonzero-none gone,
      )
  | inr other ↦
      ground (arith, drop_zeros-cons n k v l, lookup-cons n k v l, other, lookup-drop_zeros n l h.1)
]

-- In `list` a name has the total that `get` answers for it, and it is left out exactly if that is
-- 0.
pub list-get :
    (n : Text) (s : Server)
    → AreMaps s.replicas
    → lookup n (list s) ≡ (if eqb (get n s).0 zero_float then none else some (get n s).0)
unfolding list get at lookup
list-get n s h =
    lookup-drop_zeros n (add_replicas s.replicas []) (add_replicas-IsMap s.replicas [] tt)
    ∙ ap nonzero (at-add_replicas n s.replicas [] h)
