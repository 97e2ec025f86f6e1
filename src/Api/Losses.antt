-- ===== src/Api/Losses.antt =====
-- What the client makes of replies that do not come (api/api.go).
use dcounter.Base.{
  ℕ, zero, suc, ◌≡◌, refl, Bool, true, false, none, some, List, [], ◌∷◌, Text, arith, codes,
}
use dcounter.Base.Result.{Error, Result, err}
use dcounter.Float.{Float, zero_float}
use dcounter.Wire.{FloatRep}
use dcounter.Proto.{write_line}
use dcounter.Api.{Net, Round, retry, read_reply, connect, round, rounds}
use dcounter.Api.Methods.{
  ping, join, save, members, get, inc, set, list, react_ping, react_join, react_save, react_members,
  react_list, react_value, react_get,
}

-- The server can be reached and takes the commands, but each reply is lost, or is an ERR line.
pub record NoReply {World : Type 0} (net : Net World) : Type 0 where
  pub dials : (w : World) → (net.dial w).0 ≡ none
  pub sends : (line : Text) (w : World) → (net.send line w).0 ≡ none
  pub fails : (w : World) → (e : Error) × ((read_reply net w).0 ≡ err e)

module _ {World : Type 0} (net : Net World) (h : NoReply net) where
  connects : (connected : Bool) (w : World) → (connect net connected w).0 ≡ none
  unfolding connect
  connects true w = refl
  connects false w = ground (arith, h.dials w)

  round-retry :
      {A : Type 0} (line : Text) (react : Text → List Text → Round A) (failed : A) (c : Bool)
      (w : World)
      → (round net line react failed c w).0 ≡ retry none
  unfolding round
  round-retry line react failed c w =
      let w1 = (connect net c w).2 in
      let w2 = (net.send line w1).1 in ground (arith, connects c w, h.sends line w1, (h.fails w2).1)

  rounds-no_reply :
      {A : Type 0} (line : Text) (react : Text → List Text → Round A) (failed fallback : A) (n : ℕ)
      (c : Bool) (w : World)
      → (rounds net line react failed fallback n none c w).0 ≡ some (fallback, none)
  unfolding rounds
  rounds-no_reply line react failed fallback zero c w = refl
  rounds-no_reply line react failed fallback (suc n) c w =
      let (_, c', w') = round net line react failed c w in
      ground (
        arith,
        round-retry line react failed c w,
        rounds-no_reply line react failed fallback n c' w',
      )

-- If the server is reached and takes the commands, but each reply is lost or is an ERR line, then
-- every method returns without an error: Ping, Join, Save, Members and List with nothing, Inc and
-- Set with 0, and Get with 0 and the claim that the cluster is consistent.
pub NoReply-no_error :
    {World Member : Type 0} ⦃rep : FloatRep⦄ (net : Net World)
    (decode : Text → Result (List Member)) (c : Bool) (w : World) (id : Text) (v : Float)
    (hosts : List Text)
    → NoReply net
    → ((ping net c w).0 ≡ some (tt, none))
      × ((join net c w hosts).0 ≡ some (tt, none))
      × ((save net c w).0 ≡ some ([], none))
      × ((members net c w decode).0 ≡ some (none, none))
      × ((list net c w).0 ≡ some (none, none))
      × ((inc net c w id v).0 ≡ some (zero_float, none))
      × ((set net c w id v).0 ≡ some (zero_float, none))
      × ((get net c w id).0 ≡ some ((zero_float, true), none))
unfolding ping join save members list inc set get
NoReply-no_error ⦃rep⦄ net decode c w id v hosts h = (
  rounds-no_reply net h (write_line (codes "PING") []) react_ping tt tt 2 c w,
  rounds-no_reply net h (write_line (codes "JOIN") hosts) react_join tt tt 2 c w,
  rounds-no_reply net h (write_line (codes "SAVE") []) react_save [] [] 2 c w,
  rounds-no_reply net h (write_line (codes "MEMBERS") []) (react_members decode) none none 2 c w,
  rounds-no_reply net h (write_line (codes "LIST") []) react_list none none 2 c w,
  rounds-no_reply net h (write_line (codes "INC") (id ∷ rep.format_float v ∷ [])) react_value
      zero_float zero_float 2 c w,
  rounds-no_reply net h (write_line (codes "SET") (id ∷ rep.format_float v ∷ [])) react_value
      zero_float zero_float 2 c w,
  rounds-no_reply net h (write_line (codes "GET") (id ∷ [])) react_get (zero_float, false)
      (zero_float, true) 2 c w,
)
