-- ===== src/Api/Methods.antt =====
-- The methods of the client (api/api.go): the command that each sends, and what it makes of a
-- reply.
use dcounter.Base.{
  Bool, true, false, ◌||◌, Option, none, some, List, [], ◌∷◌, Text, codes, text_eq, if◌then◌else◌,
}
use dcounter.Base.Dict.{Dict, insert}
use dcounter.Base.Result.{Error, Result, message, ok, err}
use dcounter.Float.{Float, zero_float}
use dcounter.Wire.{FloatRep}
use dcounter.Proto.{write_line}
use dcounter.Api.{Net, Round, done, retry, rounds}

-- What a method returns (`none` is a panic), whether there is a connection, and the world.
abbrev pub Returns : Type 0 → Type 0 → Type 0
Returns World A = Option (A × Option Error) × Bool × World

-- `return v, nil` and `return v, fmt.Errorf(text)`
abbrev pub ok_with : {A : Type 0} → A → Round A
ok_with v = done (some (v, none))

abbrev pub fail_with : {A : Type 0} → A → Error → Round A
fail_with v e = done (some (v, some e))

-- `strconv.ParseBool`
unfoldable pub parse_bool : Text → Result Bool
unfolding text_eq
parse_bool t =
    if text_eq t (codes "1")
      || (text_eq t (codes "t")
          || (text_eq t (codes "T")
              || (text_eq t (codes "TRUE")
                  || (text_eq t (codes "true") || text_eq t (codes "True")))))
    then ok true
    else if text_eq t (codes "0")
        || (text_eq t (codes "f")
            || (text_eq t (codes "F")
                || (text_eq t (codes "FALSE")
                    || (text_eq t (codes "false") || text_eq t (codes "False")))))
    then ok false
    else err (message (codes "invalid syntax"))

-- Ping goes on with the loop after a PONG.
unfoldable pub react_ping : Text → List Text → Round (Unit {0})
unfolding text_eq
react_ping cmd args =
    if text_eq cmd (codes "PONG")
    then retry none
    else fail_with tt (message (codes "PONG expected"))

unfoldable pub react_join : Text → List Text → Round (Unit {0})
unfolding text_eq
react_join cmd args =
    if text_eq cmd (codes "OK") then ok_with tt else fail_with tt (message (codes "OK expected"))

-- `args[0]` panics if there is none.
unfoldable pub react_save : Text → List Text → Round Text
unfolding text_eq
react_save cmd [] =
    if text_eq cmd (codes "RET") then done none else fail_with [] (message (codes "RET expected"))
react_save cmd (payload ∷ _) =
    if text_eq cmd (codes "RET")
    then ok_with payload
    else fail_with [] (message (codes "RET expected"))

module _ ⦃rep : FloatRep⦄ where
  -- The two arguments of a reply to GET.
  unfoldable pub two_values : List Text → Round (Float × Bool)
  unfolding parse_bool
  two_values (v ∷ b ∷ []) = elim (rep.parse_float v) [
    | err e ↦ fail_with (zero_float, false) e
    | ok value ↦ elim (parse_bool b) [
      | err e ↦ fail_with (zero_float, false) e
      | ok consistent ↦ ok_with (value, consistent)
    ]
  ]
  two_values _ = fail_with (zero_float, false) (message (codes "2 arguments expected"))

  unfoldable pub react_get : Text → List Text → Round (Float × Bool)
  unfolding text_eq two_values
  react_get cmd args =
      if text_eq cmd (codes "RET")
      then two_values args
      else fail_with (zero_float, false) (message (codes "RET expected"))

  -- The one argument of a reply to INC or SET.
  unfoldable pub one_value : List Text → Round Float
  one_value (v ∷ []) = elim (rep.parse_float v) [
    | err e ↦ fail_with zero_float e
    | ok value ↦ ok_with value
  ]
  one_value _ = fail_with zero_float (message (codes "1 arguments expected"))

  unfoldable pub react_value : Text → List Text → Round Float
  unfolding text_eq one_value
  react_value cmd args =
      if text_eq cmd (codes "RET")
      then one_value args
      else fail_with zero_float (message (codes "RET expected"))

  -- The loop over the arguments of a reply to LIST, two at a time: to read past the last one
  -- panics. A nil map is `none`.
  unfoldable pub read_list : List Text → Dict Float → Round (Option (Dict Float))
  unfolding insert
  read_list [] l = ok_with (some l)
  read_list (name ∷ []) l = done none
  read_list (name ∷ v ∷ args) l = elim (rep.parse_float v) [
    | err e ↦ fail_with none e
    | ok value ↦ read_list args (insert name value l)
  ]

  unfoldable pub react_list : Text → List Text → Round (Option (Dict Float))
  unfolding text_eq read_list
  react_list cmd args =
      if text_eq cmd (codes "RET")
      then read_list args []
      else fail_with none (message (codes "RET expected"))

-- `decode` is encoding/json; a nil list of members is `none`. `args[0]` panics if there is none.
unfoldable pub react_members :
    {Member : Type 0}
    → (Text → Result (List Member))
    → Text
    → List Text
    → Round (Option (List Member))
unfolding text_eq
react_members decode cmd [] =
    if text_eq cmd (codes "RET") then done none else fail_with none (message (codes "RET expected"))
react_members decode cmd (payload ∷ _) =
    if text_eq cmd (codes "RET")
    then elim (decode payload) [ err e ↦ fail_with none e | ok members ↦ ok_with (some members) ]
    else fail_with none (message (codes "RET expected"))

module _ {World : Type 0} (net : Net World) (connected : Bool) (w : World) where
  -- `Ping`
  unfoldable pub ping : Returns World (Unit {0})
  unfolding rounds write_line react_ping
  ping = rounds net (write_line (codes "PING") []) react_ping tt tt 2 none connected w

  -- `Join`
  unfoldable pub join : List Text → Returns World (Unit {0})
  unfolding rounds write_line react_join
  join hosts = rounds net (write_line (codes "JOIN") hosts) react_join tt tt 2 none connected w

  -- `Save`
  unfoldable pub save : Returns World Text
  unfolding rounds write_line react_save
  save = rounds net (write_line (codes "SAVE") []) react_save [] [] 2 none connected w

  -- `Members`
  unfoldable pub members :
      {Member : Type 0} → (Text → Result (List Member)) → Returns World (Option (List Member))
  unfolding rounds write_line react_members
  members decode =
      rounds net (write_line (codes "MEMBERS") []) (react_members decode) none none 2 none connected
        w

  -- `Close`: the connection is gone, also if Close fails.
  unfoldable pub close : Option Error × Bool × World
  close = elim connected [
    | true ↦ let (e, w') = net.close w in (e, false, w')
    | false ↦ (none, false, w)
  ]

  module _ ⦃rep : FloatRep⦄ where
    -- `Get`
    unfoldable pub get : Text → Returns World (Float × Bool)
    unfolding rounds write_line react_get
    get id =
        rounds net (write_line (codes "GET") (id ∷ [])) react_get (zero_float, false)
          (zero_float, true) 2 none connected w

    -- `Inc`
    unfoldable pub inc : Text → Float → Returns World Float
    unfolding rounds write_line react_value
    inc id diff =
        rounds net (write_line (codes "INC") (id ∷ rep.format_float diff ∷ [])) react_value
          zero_float zero_float 2 none connected w

    -- `Set`
    unfoldable pub set : Text → Float → Returns World Float
    unfolding rounds write_line react_value
    set id v =
        rounds net (write_line (codes "SET") (id ∷ rep.format_float v ∷ [])) react_value zero_float
          zero_float 2 none connected w

    -- `List`
    unfoldable pub list : Returns World (Option (Dict Float))
    unfolding rounds write_line react_list
    list = rounds net (write_line (codes "LIST") []) react_list none none 2 none connected w

-- `Dial`: a new client that has answered a Ping.
unfoldable pub dial : {World : Type 0} → Net World → World → Option (Bool × Option Error) × World
unfolding ping
dial net w =
    let (r, c, w') = ping net false w in
    elim r [ none ↦ (none, w') | some (_, e) ↦ (some (c, e), w') ]
