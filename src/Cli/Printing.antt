-- ===== src/Cli/Printing.antt =====
-- What the commands print (cli.go), from the client's call to the server's answer.
use dcounter.Base.{
  ◌≡◌, Bool, true, false, Option, none, some, List, [], ◌∷◌, ◌++◌, Text, codes, arith,
}
use dcounter.Base.Result.{eof, Result, ok, err}
use dcounter.Float.{Float, zero_float}
use dcounter.Wire.{FloatRep, newline}
use dcounter.Api.{Net}
use dcounter.Api.Methods.{Returns, dial, ping, get, inc, set, list, join}
use dcounter.Api.Losses.{NoReply, NoReply-no_error}
use dcounter.Cli.{
  Output, printed, with_api, report, show_get, listing, cli_get, cli_inc, inc_action, set_action,
  cli_set, cli_list, cli_join,
}

module _ {World : Type 0} ⦃rep : FloatRep⦄ (net : Net World) (format_f : Float → Text)
    (h : NoReply net) (w : World) where
  no_members : Text → Result (List Text)
  no_members _ = err eof

  -- Where no reply comes, Dial succeeds, and the action is run.
  with_api-no_reply :
      (act : Bool → World → Option (List Output) × Bool × World) (out : Option (List Output))
      → ((c : Bool) (w' : World) → (act c w').0 ≡ out)
      → (with_api net act w).0 ≡ out
  unfolding with_api dial
  with_api-no_reply act out runs =
      let (_, c, w') = ping net false w in
      ground (arith, (NoReply-no_error net no_members false w [] zero_float [] h).0, runs c w')

  report-returns :
      {A : Type 0} (show : A → List Output) (r : Returns World A) (v : A)
      → r.0 ≡ some (v, none)
      → (report net show r).0 ≡ some (show v)
  unfolding report
  report-returns show (r, c, w') v e = rw e

  reported :
      {A : Type 0} (show : A → List Output) (run : Bool → World → Returns World A) (v : A)
      → ((c : Bool) (w' : World) → (run c w').0 ≡ some (v, none))
      → (with_api net (λ c w'. report net show (run c w')) w).0 ≡ some (show v)
  reported show run v runs =
      with_api-no_reply (λ c w'. report net show (run c w')) (some (show v))
        (λ c w'. report-returns show (run c w') v (runs c w'))

  -- If the server is reached and takes the commands, but every reply is lost or is an ERR line,
  -- then each command prints success and logs nothing: `get` prints 0 and CONSISTENT, `inc` prints
  -- 0, `set` prints the new value and 0 for the old one, `list` prints nothing, `join` prints OK.
  -- The amount for `inc` and `set` parses.
  pub cli_prints_success :
      (name amount : Text) (v : Float) (args : List Text)
      → rep.parse_float amount ≡ ok v
      → ((cli_get net format_f (name ∷ args) w).0
          ≡ some (
              printed (format_f zero_float ++ codes " (" ++ codes "CONSISTENT" ++ codes ")\n")
              ∷ []))
        × ((cli_inc net format_f (name ∷ amount ∷ args) w).0
            ≡ some (printed (format_f zero_float ++ newline ∷ []) ∷ []))
        × ((cli_set net format_f (name ∷ amount ∷ args) w).0
            ≡ some (printed (format_f v ++ codes " (" ++ format_f zero_float ++ codes ")\n") ∷ []))
        × ((cli_list net format_f w).0 ≡ some [])
        × ((cli_join net args w).0 ≡ some (printed (codes "OK\n") ∷ []))
  unfolding cli_get cli_inc cli_set cli_list cli_join inc_action set_action
  cli_prints_success name amount v args parsed =
      let silent = λ (c : Bool) (w' : World). NoReply-no_error net no_members c w' name v args h in
      (
        reported (show_get net format_f) (λ c w'. get net c w' name) (zero_float, true)
            (λ c w'. (silent c w').7),
        with_api-no_reply (inc_action net format_f (name ∷ amount ∷ args)) _ (λ c w'.
            rw (inc_action, parsed)
              (report-returns _ (inc net c w' name v) zero_float (silent c w').5)),
        with_api-no_reply (set_action net format_f (name ∷ amount ∷ args)) _ (λ c w'.
            rw (set_action, parsed)
              (report-returns _ (set net c w' name v) zero_float (silent c w').6)),
        reported (listing net format_f) (λ c w'. list net c w') none (λ c w'. (silent c w').4),
        reported (λ _. printed (codes "OK\n") ∷ []) (λ c w'. join net c w' args) tt
            (λ c w'. (silent c w').1),
      )
