-- ===== src/Cli/Delivered.antt =====
-- A command and the server that it reaches, over a connection that delivers (cli.go).
use dcounter.Base.{◌≡◌, refl, true, false, none, some, List, [], ◌∷◌, ◌++◌, Text, arith, text_eq}
use dcounter.Base.Result.{ok}
use dcounter.Float.{Float}
use dcounter.Wire.{FloatRep, newline, read_string}
use dcounter.Proto.{read, write_line, parse_line, has_prefix, join_words, split}
use dcounter.Proto.RoundTrip.{IsWord}
use dcounter.Server.{Server}
use dcounter.Server.Local
use dcounter.Server.Handle.{Outside, handle_command}
use dcounter.Api.{rounds, round, connect, read_reply}
use dcounter.Api.Methods.{dial, ping, close, react_ping}
use dcounter.Api.EndToEnd.{direct_net}
use dcounter.Api.Direct.{inc_direct}
use dcounter.Cli.{printed, with_api, report, inc_action, cli_inc}

module _ ⦃rep : FloatRep⦄ (out : Outside) where
  -- Ping over a connection that delivers.
  ping_delivered :
      (s : Server) → ping (direct_net out) false (s, []) ≡ (some (tt, none), true, (s, []))
  unfolding ping rounds round connect read_reply react_ping read write_line parse_line has_prefix
      join_words split read_string handle_command text_eq
  ping_delivered s = refl

  -- `cli inc` over a connection that delivers, at a server that takes the increment: it prints the
  -- new value, which is the one that the server answered, the server has incremented once, and
  -- nothing is left to read. The name is a word, the amount parses, and it and the value are
  -- float64 values.
  pub cli_inc_delivered :
      (format_f : Float → Text) (name amount : Text) (args : List Text) (diff v : Float)
      (s s' : Server)
      → IsWord name
      → text_eq name [] ≡ false
      → rep.parse_float amount ≡ ok diff
      → rep.fits diff ≡ true
      → rep.fits v ≡ true
      → Local.inc name diff s ≡ some (v, s')
      → cli_inc (direct_net out) format_f (name ∷ amount ∷ args) (s, [])
        ≡ (some (printed (format_f v ++ newline ∷ []) ∷ []), (s', []))
  unfolding cli_inc with_api dial inc_action report close
  cli_inc_delivered format_f name amount args diff v s s' word named parsed fits fits' incs =
      ground (
        arith,
        ping_delivered s,
        parsed,
        inc_direct out true name diff v s s' word named fits fits' incs,
      )
