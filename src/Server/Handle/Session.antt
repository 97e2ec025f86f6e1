-- ===== src/Server/Handle/Session.antt =====
-- A whole connection (handle of server/api.go): its loop ends, and answers commands one by one.
use dcounter.Base.{
  ℕ, zero, suc, ◌<◌, ◌≡◌, refl, Bool, true, false, none, some, List, [], ◌∷◌, ◌++◌, Text, codes,
  length, ◌==◌, arith, Option-cases, Bool-cases, inl, inr,
}
use dcounter.Base.Result.{ok, Result-cases}
use dcounter.Counter.Growth.{All}
use dcounter.Wire.{FloatRep, newline, read_string}
use dcounter.Proto.{write_line, join_words, has_prefix, parse_line, read}
use dcounter.Proto.RoundTrip.{IsWord, read-write_line}
use dcounter.Server.{Server}
use dcounter.Server.Handle.{Outside, handle_command, handle}

read_string-shorter :
    (stream line rest : Text) → read_string stream ≡ ok (line, rest) → length rest < length stream
unfolding read_string
read_string-shorter [] line rest e = ground arith
read_string-shorter (c ∷ cs) line rest e = elim (Bool-cases (c == newline)) [
  | inl ends ↦ ground (arith, ends, e)
  | inr goes_on ↦ elim (Result-cases (read_string cs)) [
    | inl ((line', rest'), reads) ↦
        ground (arith, goes_on, reads, e, read_string-shorter cs line' rest' reads)
    | inr (x, fails) ↦ ground (arith, goes_on, fails, e)
  ]
]

read-shorter :
    (errorf : Text → Text) (stream cmd : Text) (args : List Text) (rest : Text)
    → read errorf stream ≡ ok ((cmd, args), rest)
    → length rest < length stream
unfolding read
read-shorter errorf stream cmd args rest e = elim (Result-cases (read_string stream)) [
  | inr (x, fails) ↦ ground (arith, fails, e)
  | inl ((line, rest'), reads) ↦ elim (Result-cases (parse_line errorf line)) [
    | inr (x, fails) ↦ ground (arith, reads, fails, e)
    | inl (command, parsed) ↦
        ground (arith, reads, parsed, e, read_string-shorter stream line rest' reads)
  ]
]

module _ ⦃rep : FloatRep⦄ (out : ℕ → Outside) (sent : Text → Bool) where
  -- With more fuel than there are bytes the outcome of a connection does not depend on the fuel.
  handle-enough :
      (f g k : ℕ) (stream : Text) (s : Server)
      → length stream < f
      → length stream < g
      → handle f out sent k stream s ≡ handle g out sent k stream s
  unfolding handle
  handle-enough zero g k stream s h h' = absurd (omega arith)
  handle-enough (suc f) zero k stream s h h' = absurd (omega arith)
  handle-enough (suc f) (suc g) k stream s h h' = elim (Result-cases (read (out k).errorf stream)) [
    | inr (x, fails) ↦ ground (arith, fails)
    | inl (((cmd, args), rest), reads) ↦ elim (Option-cases (handle_command (out k) cmd args s)) [
      | inl panics ↦ ground (arith, reads, panics)
      | inr ((line, s'), answers) ↦
          let shorter = read-shorter (out k).errorf stream cmd args rest reads in
          ground (
            arith,
            reads,
            answers,
            handle-enough f g (suc k) rest s' (omega (arith, shorter, h))
                (omega (arith, shorter, h')),
          )
    ]
  ]

-- The bytes of a sequence of commands.
abbrev pub command_bytes : List (Text × List Text) → Text
unfolding write_line
command_bytes [] = []
command_bytes ((cmd, args) ∷ commands) = write_line cmd args ++ command_bytes commands

-- Words, in a line that is not taken for an error.
pub record IsCommand (c : Text × List Text) : Type 0 where
  pub cmd_word : IsWord c.0
  pub arg_words : All IsWord c.1
  pub no_error : has_prefix (codes "ERR ") (join_words c.0 c.1) ≡ false

module _ ⦃rep : FloatRep⦄ (out : ℕ → Outside) (sent : Text → Bool) where
  -- What a server answers to a sequence of commands, up to a panic or a reply that is not sent.
  abbrev pub answers : ℕ → List (Text × List Text) → Server → Text × Server
  answers k [] s = ([], s)
  answers k ((cmd, args) ∷ commands) s = elim (handle_command (out k) cmd args s) [
    | none ↦ ([], s)
    | some (line, s') ↦ elim (sent line) [
      | true ↦ let (more, s'') = answers (suc k) commands s' in (line ++ more, s'')
      | false ↦ ([], s')
    ]
  ]

  -- A connection on which a sequence of commands arrives, each of words and not taken for an error,
  -- is answered command by command, in order, each at the server that the one before has left,
  -- until one panics or a reply does not get through. Fuel above the number of bytes is enough.
  pub handle_commands :
      (f k : ℕ) (commands : List (Text × List Text)) (s : Server)
      → All IsCommand commands
      → length (command_bytes commands) < f
      → handle f out sent k (command_bytes commands) s ≡ answers k commands s
  unfolding handle
  handle_commands zero k commands s h enough = absurd (omega arith)
  handle_commands (suc f) k [] s h enough = refl
  handle_commands (suc f) k ((cmd, args) ∷ commands) s h enough =
      let reads =
        read-write_line (out k).errorf cmd args (command_bytes commands) h.0.cmd_word h.0.arg_words
          h.0.no_error in
      let shorter =
        read-shorter (out k).errorf (write_line cmd args ++ command_bytes commands) cmd args
          (command_bytes commands) reads in
      elim (Option-cases (handle_command (out k) cmd args s)) [
        | inl panics ↦ ground (arith, reads, panics)
        | inr ((line, s'), replies) ↦
            let rest = handle_commands f (suc k) commands s' h.1 (omega (arith, shorter, enough)) in
            ground (arith, reads, replies, rest)
      ]
