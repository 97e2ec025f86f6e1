-- ===== src/Api/Calls.antt =====
-- A call over a connection that delivers: the command gets to the server and the reply to the
-- client (api/api.go, server/api.go).
use mathlib.Core.List.{append-nil}
use dcounter.Base.{
  ℕ, suc, ◌≡◌, ◌∙◌, sym, ap, Bool, true, false, Option, none, some, List, [], Text, arith, codes,
}
use dcounter.Base.Result.{Error, ok}
use dcounter.Counter.Growth.{All}
use dcounter.Wire.{FloatRep}
use dcounter.Wire.RoundTrip.{read_string-line}
use dcounter.Proto.{write_line, read, parse_line, has_prefix, join_words}
use dcounter.Proto.RoundTrip.{IsWord, read-write_line, split-join_words, join_words-no_newline}
use dcounter.Server.{Server}
use dcounter.Server.Handle.{Outside, handle_command}
use dcounter.Api.{Round, done, connect, read_reply, round, rounds}
use dcounter.Api.EndToEnd.{serve, direct_net}

module _ ⦃rep : FloatRep⦄ (out : Outside) where
  -- A command of words gets to the server.
  serve-command :
      (cmd : Text) (args : List Text) (reply : Text) (s s' : Server)
      → IsWord cmd
      → All IsWord args
      → has_prefix (codes "ERR ") (join_words cmd args) ≡ false
      → handle_command out cmd args s ≡ some (reply, s')
      → serve out (write_line cmd args) s ≡ (reply, s')
  serve-command cmd args reply s s' h hs plain handled =
      let line = write_line cmd args in
      ground (
        arith,
        ap (read out.errorf) (sym (append-nil line))
            ∙ read-write_line out.errorf cmd args [] h hs plain,
        handled,
      )

  -- A reply of words gets to the client.
  recv-reply :
      (cmd : Text) (args : List Text) (s : Server)
      → IsWord cmd
      → All IsWord args
      → has_prefix (codes "ERR ") (join_words cmd args) ≡ false
      → read_reply (direct_net out) (s, write_line cmd args) ≡ (ok (cmd, args), (s, []))
  unfolding read_reply write_line parse_line
  recv-reply cmd args s h hs plain = ground (
    arith,
    read_string-line (join_words cmd args) [] (join_words-no_newline cmd args h hs),
    plain,
    split-join_words cmd args h hs,
  )

  round-delivered :
      {A : Type 0} (cmd : Text) (args : List Text) (react : Text → List Text → Round A) (failed : A)
      (c : Bool) (s s' : Server) (rcmd : Text) (rargs : List Text)
      → serve out (write_line cmd args) s ≡ (write_line rcmd rargs, s')
      → read_reply (direct_net out) (s', write_line rcmd rargs) ≡ (ok (rcmd, rargs), (s', []))
      → round (direct_net out) (write_line cmd args) react failed c (s, [])
        ≡ (react rcmd rargs, true, (s', []))
  unfolding round connect
  round-delivered cmd args react failed true s s' rcmd rargs served received =
      ground (arith, served, received)
  round-delivered cmd args react failed false s s' rcmd rargs served received =
      ground (arith, served, received)

  -- A method whose reaction to the reply ends it.
  rounds-delivered :
      {A : Type 0} (cmd : Text) (args : List Text) (react : Text → List Text → Round A)
      (failed fallback : A) (n : ℕ) (e : Option Error) (c : Bool) (s s' : Server) (rcmd : Text)
      (rargs : List Text) (o : Option (A × Option Error))
      → serve out (write_line cmd args) s ≡ (write_line rcmd rargs, s')
      → read_reply (direct_net out) (s', write_line rcmd rargs) ≡ (ok (rcmd, rargs), (s', []))
      → react rcmd rargs ≡ done o
      → rounds (direct_net out) (write_line cmd args) react failed fallback (suc n) e c (s, [])
        ≡ (o, true, (s', []))
  unfolding rounds
  rounds-delivered cmd args react failed fallback n e c s s' rcmd rargs o served received reacts =
      ground
        (arith, round-delivered cmd args react failed c s s' rcmd rargs served received, reacts)

  pub delivered :
      {A : Type 0} (cmd : Text) (args : List Text) (react : Text → List Text → Round A)
      (failed fallback : A) (c : Bool) (s s' : Server) (rcmd : Text) (rargs : List Text)
      (o : Option (A × Option Error))
      → IsWord cmd
      → All IsWord args
      → has_prefix (codes "ERR ") (join_words cmd args) ≡ false
      → IsWord rcmd
      → All IsWord rargs
      → has_prefix (codes "ERR ") (join_words rcmd rargs) ≡ false
      → handle_command out cmd args s ≡ some (write_line rcmd rargs, s')
      → react rcmd rargs ≡ done o
      → rounds (direct_net out) (write_line cmd args) react failed fallback 2 none c (s, [])
        ≡ (o, true, (s', []))
  delivered cmd args react failed fallback c s s' rcmd rargs o h hs plain h' hs' plain' handled
        reacts =
      rounds-delivered cmd args react failed fallback 1 none c s s' rcmd rargs o
        (serve-command cmd args (write_line rcmd rargs) s s' h hs plain handled)
        (recv-reply rcmd rargs s' h' hs' plain') reacts
