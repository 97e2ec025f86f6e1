-- ===== src/Server/Handle.antt =====
-- `handle` of server/api.go: what a server answers to a client's commands.
pub mod Replies
pub mod Session
use dcounter.Base.{
  ℕ, zero, suc, Bool, true, false, Option, none, some, List, [], ◌∷◌, ◌++◌, map, Text, codes,
  text_eq, ltb, if◌then◌else◌,
}
use dcounter.Base.Int.{ℤ}
use dcounter.Base.Dict.{Dict}
use dcounter.Base.Result.{Error, Result, message, ok, err}
use dcounter.Float.{Float}
use dcounter.Errors.{len, merge_errors}
use dcounter.Wire.{FloatRep}
use dcounter.Proto.{write_line, error_line, read}
use dcounter.Server.{Server, Node, Counters}
use dcounter.Server.Local.{get, inc, set, list}
use dcounter.Server.Lifecycle.{join, save}

-- What a command meets outside of the server: memberlist's nodes, its SendToTCP and Join, the
-- clock, encoding/json on the counters and on the members, and fmt.Errorf on a format with no
-- arguments.
pub record Outside : Type 0 where
  pub nodes : List Node
  pub send : Node → Text → Option Error
  pub joined : Option Error
  pub now : ℤ
  pub encode : Counters → Result Text
  pub encode_members : List (Text × Text) → Result Text
  pub errorf : Text → Text

-- `strconv.FormatBool`
abbrev pub format_bool : Bool → Text
format_bool true = codes "true"
format_bool false = codes "false"

-- A reply with what a call gave, or its error.
unfoldable pub answer : Result Text → Text
unfolding write_line error_line
answer (ok payload) = write_line (codes "RET") (payload ∷ [])
answer (err e) = error_line e

module _ ⦃rep : FloatRep⦄ where
  unfoldable pub handle_get : List Text → Server → Text
  unfolding write_line error_line get
  handle_get [] s = error_line (message (codes "GET requires exactly one argument"))
  handle_get (name ∷ _) s =
      let (amount, consistent) = get name s in
      write_line (codes "RET") (rep.format_float amount ∷ format_bool consistent ∷ [])

  -- `none` is a panic, which ends the connection.
  unfoldable pub handle_inc : List Text → Server → Option (Text × Server)
  unfolding write_line error_line inc text_eq
  handle_inc (name ∷ diff ∷ _) s =
      if text_eq name []
      then some (error_line (message (codes "Invalid counter name \"\"")), s)
      else elim (rep.parse_float diff) [
        | err e ↦ some (error_line e, s)
        | ok amount ↦ elim (inc name amount s) [
          | none ↦ none
          | some (v, s') ↦ some (write_line (codes "RET") (rep.format_float v ∷ []), s')
        ]
      ]
  handle_inc _ s = some (error_line (message (codes "INC requires exactly two arguments")), s)

  -- The reply to SET: the merged errors, if there are any. To answer with a nil error panics.
  unfoldable pub answer_set : Float → List (Option Error) → Option Text
  unfolding write_line error_line len merge_errors
  answer_set old errs =
      if ltb 0 (len errs)
      then elim (merge_errors errs) [ some e ↦ some (error_line e) | none ↦ none ]
      else some (write_line (codes "RET") (rep.format_float old ∷ []))

  unfoldable pub handle_set : Outside → List Text → Server → Option (Text × Server)
  unfolding answer_set set text_eq error_line
  handle_set out (name ∷ v ∷ _) s =
      if text_eq name []
      then some (error_line (message (codes "Invalid counter name \"\"")), s)
      else elim (rep.parse_float v) [
        | err e ↦ some (error_line e, s)
        | ok amount ↦ elim (set out.send out.nodes name amount s) [
          | none ↦ none
          | some (old, errs, s') ↦ elim (answer_set old errs) [
            | none ↦ none
            | some line ↦ some (line, s')
          ]
        ]
      ]
  handle_set out _ s = some (error_line (message (codes "SET requires exactly two argument")), s)

  -- The arguments that LIST sends: each name and its value.
  unfoldable pub list_args : Dict Float → List Text
  list_args [] = []
  list_args ((name, v) ∷ l) = name ∷ rep.format_float v ∷ list_args l

  unfoldable pub handle_join : Outside → List Text → Server → Text × Server
  unfolding write_line error_line join
  handle_join out hosts s =
      let (s', joined) = join out.joined out.now s in
      (elim joined [ some e ↦ error_line e | none ↦ write_line (codes "OK") [] ], s')

  -- The dispatch by the command.
  unfoldable pub handle_command : Outside → Text → List Text → Server → Option (Text × Server)
  unfolding handle_get handle_inc handle_set list_args handle_join answer text_eq write_line
      error_line list save
  handle_command out cmd args s =
      if text_eq cmd (codes "PING")
      then some (write_line (codes "PONG") [], s)
      else if text_eq cmd (codes "GET")
      then some (handle_get args s, s)
      else if text_eq cmd (codes "INC")
      then handle_inc args s
      else if text_eq cmd (codes "SET")
      then handle_set out args s
      else if text_eq cmd (codes "LIST")
      then some (write_line (codes "RET") (list_args (list s)), s)
      else if text_eq cmd (codes "JOIN")
      then some (handle_join out args s)
      else if text_eq cmd (codes "SAVE")
      then some (answer (save out.encode s), s)
      else if text_eq cmd (codes "MEMBERS")
      then some (answer (out.encode_members (map (λ n. (n.name, n.addr)) out.nodes)), s)
      else some (error_line (message (codes "unknown command " ++ cmd)), s)

  -- The loop of `handle` over what the client sends, with fuel for the commands: what is written
  -- back, and the server. `out k` is what the k-th command meets, and `sent` says whether a reply
  -- gets through; the loop ends where the reading or a reply fails, and where a command panics.
  unfoldable pub handle : ℕ → (ℕ → Outside) → (Text → Bool) → ℕ → Text → Server → Text × Server
  unfolding read handle_command
  handle zero out sent k stream s = ([], s)
  handle (suc fuel) out sent k stream s = elim (read (out k).errorf stream) [
    | err e ↦ ([], s)
    | ok ((cmd, args), rest) ↦ elim (handle_command (out k) cmd args s) [
      | none ↦ ([], s)
      | some (line, s') ↦ elim (sent line) [
        | true ↦ let (more, s'') = handle fuel out sent (suc k) rest s' in (line ++ more, s'')
        | false ↦ ([], s')
      ]
    ]
  ]
