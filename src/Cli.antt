-- ===== src/Cli.antt =====
-- The commands of cli.go: each dials the server, calls one method of the client, and prints what it
-- returns. `format_f` is `%f` of fmt, and `columns` the vendored columnize.
pub mod Printing
pub mod Delivered
pub mod Launch
pub mod Genkey
use dcounter.Base.{
  ℕ, zero, suc, Bool, true, false, Option, none, some, List, [], ◌∷◌, ◌++◌, map, Text, codes,
}
use dcounter.Base.Dict.{Dict}
use dcounter.Base.Result.{Error, Result, error_text, ok, err}
use dcounter.Float.{Float}
use dcounter.Wire.{FloatRep, newline}
use dcounter.Api.{Net}
use dcounter.Api.Methods.{Returns, dial, close, get, inc, set, list, join, save, members}

-- What a command prints to standard output, and what it logs.
pub data Output : Type 0 where
  printed : Text → Output
  logged : Text → Output

-- The text of `log.Printf("[ERR] %v", err)`
unfoldable pub error_message : Error → Text
unfolding error_text
error_message e = codes "[ERR] " ++ error_text e

abbrev pub log_error : Error → List Output
log_error e = logged (error_message e) ∷ []

-- `c.Args().Get(i)`: an argument that is not there is empty.
abbrev pub arg : ℕ → List Text → Text
arg i [] = []
arg zero (a ∷ args) = a
arg (suc i) (a ∷ args) = arg i args

-- `Member` of api/api.go, its address as a text.
pub record Member : Type 0 where
  pub name : Text
  pub addr : Text

module _ {World : Type 0} (net : Net World) where
  -- The head of each action: `Dial`, and `defer api.Close()`. `none` is a panic.
  unfoldable pub with_api :
      (Bool → World → Option (List Output) × Bool × World) → World → Option (List Output) × World
  unfolding dial close
  with_api act w =
      let (dialed, w1) = dial net w in
      elim dialed [
        | none ↦ (none, w1)
        | some (c, e) ↦ elim e [
          | some x ↦ (some (log_error x), w1)
          | none ↦ let (out, c', w2) = act c w1 in let (_, _, w3) = close net c' w2 in (out, w3)
        ]
      ]

  -- The tail of each action: the error is logged, or the value is printed.
  unfoldable pub report :
      {A : Type 0} → (A → List Output) → Returns World A → Option (List Output) × Bool × World
  report show (r, c, w) = (
    elim r [ none ↦ none | some (v, e) ↦ some (elim e [ some x ↦ log_error x | none ↦ show v ]) ],
    c,
    w,
  )

  -- `join`
  unfoldable pub cli_join : List Text → World → Option (List Output) × World
  unfolding with_api report join
  cli_join args = with_api λ c w. report (λ _. printed (codes "OK\n") ∷ []) (join net c w args)

  -- `save`
  unfoldable pub cli_save : World → Option (List Output) × World
  unfolding with_api report save
  cli_save = with_api λ c w. report (λ json. printed (json ++ newline ∷ []) ∷ []) (save net c w)

  module _ (columns : List Text → Text) (decode : Text → Result (List Member)) where
    -- The table that `members` prints; a nil list has no rows.
    abbrev pub table : Option (List Member) → List Text
    table none = codes "Name|Address" ∷ []
    table (some ms) =
        codes "Name|Address" ∷ map (λ m. m.name ++ codes "|" ++ m.addr ++ codes "\n") ms

    -- `members`
    unfoldable pub cli_members : World → Option (List Output) × World
    unfolding with_api report members
    cli_members = with_api λ c w.
        report (λ ms. printed (columns (table ms) ++ newline ∷ []) ∷ []) (members net c w decode)

  module _ ⦃rep : FloatRep⦄ (format_f : Float → Text) where
    abbrev pub state_of : Bool → Text
    state_of true = codes "CONSISTENT"
    state_of false = codes "INCONSISTENT"

    -- What `get` prints.
    abbrev pub show_get : Float × Bool → List Output
    show_get v = printed (format_f v.0 ++ codes " (" ++ state_of v.1 ++ codes ")\n") ∷ []

    -- `get`
    unfoldable pub cli_get : List Text → World → Option (List Output) × World
    unfolding with_api report get
    cli_get args = with_api λ c w. report show_get (get net c w (arg 0 args))

    -- `inc`, once it is connected.
    unfoldable pub inc_action : List Text → Bool → World → Option (List Output) × Bool × World
    unfolding report inc
    inc_action args c w = elim (rep.parse_float (arg 1 args)) [
      | err e ↦ (some (log_error e), c, w)
      | ok diff ↦
          report (λ v. printed (format_f v ++ newline ∷ []) ∷ []) (inc net c w (arg 0 args) diff)
    ]

    -- `inc`
    unfoldable pub cli_inc : List Text → World → Option (List Output) × World
    unfolding with_api inc_action
    cli_inc args = with_api (inc_action args)

    -- `set`, once it is connected.
    unfoldable pub set_action : List Text → Bool → World → Option (List Output) × Bool × World
    unfolding report set
    set_action args c w = elim (rep.parse_float (arg 1 args)) [
      | err e ↦ (some (log_error e), c, w)
      | ok v ↦
          report (λ old. printed (format_f v ++ codes " (" ++ format_f old ++ codes ")\n") ∷ [])
            (set net c w (arg 0 args) v)
    ]

    -- `set`
    unfoldable pub cli_set : List Text → World → Option (List Output) × World
    unfolding with_api set_action
    cli_set args = with_api (set_action args)

    -- The lines that `list` prints; a nil map has none.
    abbrev pub list_lines : Dict Float → List Output
    list_lines [] = []
    list_lines ((name, v) ∷ l) =
        printed (name ++ codes ": " ++ format_f v ++ codes "\n") ∷ list_lines l

    abbrev pub listing : Option (Dict Float) → List Output
    listing none = []
    listing (some l) = list_lines l

    -- `list`
    unfoldable pub cli_list : World → Option (List Output) × World
    unfolding with_api report list
    cli_list = with_api λ c w. report listing (list net c w)
