-- ===== src/Errors.antt =====
-- `Errors` of server/errors.go: a list of errors, some of which may be nil.
use mathlib.Core.Option
use dcounter.Base.{
  ℕ, zero, suc, ◌+◌, ◌/◌, ◌%◌, ◌<◌, ◌≡◌, ◌≢◌, refl, Option, none, some, List, [], ◌∷◌, ◌++◌, Text,
  codes, ltb, ◌==◌, if◌then◌else◌, arith, Bool-cases, Option-cases, inl, inr,
}
use dcounter.Base.Result.{Error, message, error_text}
use dcounter.Wire.{newline}

abbrev pub Errors : Type 0
Errors = List (Option Error)

-- `%d`, with fuel for the digits.
unfoldable pub decimal_from : ℕ → ℕ → Text → Text
decimal_from zero n out = out
decimal_from (suc fuel) n out =
    let out' = (48 + n % 10) ∷ out in
    let rest = decimal_from fuel (n / 10) out' in if ltb n 10 then out' else rest

unfoldable pub decimal : ℕ → Text
unfolding decimal_from
decimal n = decimal_from (suc n) n []

-- With more fuel than the number the result does not depend on the fuel.
pub decimal_from-enough :
    (f g n : ℕ) (out : Text) → n < f → n < g → decimal_from f n out ≡ decimal_from g n out
unfolding decimal_from
decimal_from-enough zero g n out h k = absurd (omega arith)
decimal_from-enough (suc f) zero n out h k = absurd (omega arith)
decimal_from-enough (suc f) (suc g) n out h k = elim (Bool-cases (ltb n 10)) [
  | inl small ↦ rw small
  | inr large ↦ rw large (
      decimal_from-enough f g (n / 10) ((48 + n % 10) ∷ out) (ground (arith, large))
        (ground (arith, large)))
]

-- `Errors.Len`: how many are not nil.
unfoldable pub len : Errors → ℕ
len [] = 0
len (none ∷ errs) = len errs
len (some e ∷ errs) = suc (len errs)

-- The first that is not nil.
unfoldable pub first_error : Errors → Option Error
first_error [] = none
first_error (none ∷ errs) = first_error errs
first_error (some e ∷ errs) = some e

-- The last loop of `Errors.Error`: each text on a line of its own.
unfoldable pub error_lines : Errors → Text
unfolding error_text
error_lines [] = []
error_lines (none ∷ errs) = error_lines errs
error_lines (some e ∷ errs) = newline ∷ error_text e ++ error_lines errs

-- `Errors.Error`
unfoldable pub errors_text : Errors → Text
unfolding len first_error error_lines decimal error_text
errors_text errs =
    let all = decimal (len errs) ++ codes " errors:" ++ error_lines errs in
    if len errs == 0
    then []
    else if len errs == 1
    then elim (first_error errs) [ some e ↦ error_text e | none ↦ all ]
    else all

-- `Errors.Merge`
unfoldable pub merge_errors : Errors → Option Error
unfolding len first_error errors_text
merge_errors errs =
    if len errs == 0
    then none
    else if len errs == 1
    then elim (first_error errs) [ some e ↦ some e | none ↦ some (message (errors_text errs)) ]
    else some (message (errors_text errs))

first_error-len : (errs : Errors) → len errs ≢ 0 → first_error errs ≢ none
unfolding len first_error
first_error-len [] h e = h refl
first_error-len (none ∷ errs) h e = first_error-len errs h e
first_error-len (some x ∷ errs) h e = cc

-- The list of errors merges to nil if all in it are nil, and otherwise to an error that has the
-- text of the whole list, if there is one error as if there are more.
pub merge_errors_lem :
    (errs : Errors)
    → Option.map error_text (merge_errors errs)
      ≡ (if len errs == 0 then none else some (errors_text errs))
unfolding merge_errors
merge_errors_lem errs = elim (Option-cases (first_error errs)) [
  | inl nothing ↦ ground (arith, nothing, first_error-len errs)
  | inr (x, found) ↦ ground (arith, found)
]
