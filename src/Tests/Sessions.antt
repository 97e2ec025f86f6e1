-- ===== src/Tests/Sessions.antt =====
-- A connection at concrete inputs.
use dcounter.Base.{ℕ, ◌≡◌, refl, Bool, true, List, [], ◌∷◌, Text, arith, codes, has_byte}
use dcounter.Proto.{write_line, join_words, has_prefix}
use dcounter.Server.Handle.{Outside, handle}
use dcounter.Server.Handle.Session.{IsCommand, command_bytes, answers, handle_commands}
use dcounter.Tests.Rep.{test_rep}
use dcounter.Tests.Servers.{n, server_a}
use dcounter.Tests.Clients.{n-IsWord, outside, word}

abbrev always : ℕ → Outside
always k = outside

abbrev through : Text → Bool
through line = true

abbrev get_n : Text × List Text
get_n = (codes "GET", n ∷ [])

get_n-IsCommand : IsCommand get_n
get_n-IsCommand = record {
  cmd_word = word (codes "GET") (unfold has_byte in refl) (unfold has_byte in refl);
  arg_words = (n-IsWord, tt);
  no_error = unfold has_prefix join_words in refl;
}

handle_commands_example :
    handle 40 always through 0 (command_bytes (get_n ∷ get_n ∷ [])) server_a
    ≡ answers always through 0 (get_n ∷ get_n ∷ []) server_a
handle_commands_example =
    handle_commands always through 40 0 (get_n ∷ get_n ∷ []) server_a
      (get_n-IsCommand, (get_n-IsCommand, tt)) (unfold write_line join_words in omega arith)
