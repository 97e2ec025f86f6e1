-- ===== src/Api/Interface.antt =====
-- The interface `API` of api/api.go, with the client that implements it, and what it stands for:
-- the operations of a server.
use dcounter.Base.{Bool, Option, none, some, List, [], map, false, Text}
use dcounter.Base.Dict.{Dict}
use dcounter.Base.Result.{Error, Result}
use dcounter.Errors.{merge_errors}
use dcounter.Float.{Float}
use dcounter.Wire.{FloatRep}
use dcounter.Server.{Server}
use dcounter.Server.Local
use dcounter.Server.Lifecycle
use dcounter.Server.Handle.{Outside}
use dcounter.Api.{Net}
use dcounter.Api.Methods

-- What a call returns, a value and an error (`none` is a panic), and the state after it.
abbrev pub Call : Type 0 → Type 0 → Type 0
Call S A = Option (A × Option Error) × S

-- `API`, for an implementation with states `S`; a nil map is `none`.
pub record Api (S : Type 0) : Type 0 where
  pub ping : S → Call S (Unit {0})
  pub get : Text → S → Call S (Float × Bool)
  pub inc : Text → Float → S → Call S Float
  pub set : Text → Float → S → Call S Float
  pub list : S → Call S (Option (Dict Float))
  pub join : List Text → S → Call S (Unit {0})
  pub save : S → Call S Text
  pub members : S → Call S (Option (List (Text × Text)))
  pub close : S → Option Error × S

abbrev pub pack : {A World : Type 0} → Methods.Returns World A → Call (Bool × World) A
pack (r, c, w) = (r, (c, w))

module _ ⦃rep : FloatRep⦄ where
  -- The client `api` of api/api.go: whether there is a connection, and the world. `decode` is
  -- encoding/json on the members.
  abbrev pub client :
      {World : Type 0} → Net World → (Text → Result (List (Text × Text))) → Api (Bool × World)
  client net decode = record {
    ping = λ (c, w). pack (Methods.ping net c w);
    get = λ id (c, w). pack (Methods.get net c w id);
    inc = λ id diff (c, w). pack (Methods.inc net c w id diff);
    set = λ id v (c, w). pack (Methods.set net c w id v);
    list = λ (c, w). pack (Methods.list net c w);
    join = λ hosts (c, w). pack (Methods.join net c w hosts);
    save = λ (c, w). pack (Methods.save net c w);
    members = λ (c, w). pack (Methods.members net c w decode);
    close = λ (c, w). let (e, c', w') = Methods.close net c w in (e, (c', w'));
  }

  -- The operations of the server itself (server/api.go, server/server.go), with no lines between.
  abbrev pub direct : Outside → Api Server
  direct out = record {
    ping = λ s. (some (tt, none), s);
    get = λ id s. (some (Local.get id s, none), s);
    inc = λ id diff s. elim (Local.inc id diff s) [
      | none ↦ (none, s)
      | some (v, s') ↦ (some (v, none), s')
    ];
    set = λ id v s. elim (Local.set out.send out.nodes id v s) [
      | none ↦ (none, s)
      | some (old, errs, s') ↦ (some (old, merge_errors errs), s')
    ];
    list = λ s. (some (some (Local.list s), none), s);
    join = λ hosts s. let (s', e) = Lifecycle.join out.joined out.now s in (some (tt, e), s');
    save = λ s. elim (Lifecycle.save out.encode s) [
      | Result.ok json ↦ (some (json, none), s)
      | Result.err e ↦ (some ([], some e), s)
    ];
    members = λ s. (some (some (map (λ n. (n.name, n.addr)) out.nodes), none), s);
    close = λ s. (none, s);
  }

-- `New`: no connection yet.
abbrev pub new_api : {World : Type 0} → World → Bool × World
new_api w = (false, w)
