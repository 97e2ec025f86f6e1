-- ===== src/Api/Direct.antt =====
-- Each method of the client over a connection that delivers (api/api.go, server/api.go).
use dcounter.Base.{
  has_byte, ◌≡◌, refl, Bool, true, false, Option, none, some, List, [], ◌∷◌, Text, text_eq, arith,
  codes, map,
}
use dcounter.Base.Result.{Result, Error, ok}
use dcounter.Float.{Float}
use dcounter.Counter.Growth.{All}
use dcounter.Errors.{len}
use dcounter.Wire.{FloatRep}
use dcounter.Proto.{write_line, read, parse_line, has_prefix, join_words}
use dcounter.Proto.RoundTrip.{IsWord}
use dcounter.Server.{Server}
use dcounter.Server.Local
use dcounter.Server.Lifecycle
use dcounter.Server.Handle.{Outside, handle_command, answer, answer_set, format_bool}
use dcounter.Api.{connect, read_reply, round, rounds}
use dcounter.Api.Methods
use dcounter.Api.Methods.{parse_bool}
use dcounter.Api.EndToEnd.{direct_net, ret-IsWord, float-IsWord}
use dcounter.Api.Calls.{delivered}

module _ ⦃rep : FloatRep⦄ (out : Outside) where
  bool-IsWord : (b : Bool) → IsWord (format_bool b)
  bool-IsWord true = record {
    no_space = unfold has_byte in refl;
    no_newline = unfold has_byte in refl;
  }
  bool-IsWord false = record {
    no_space = unfold has_byte in refl;
    no_newline = unfold has_byte in refl;
  }

  parse_bool-format_bool : (b : Bool) → parse_bool (format_bool b) ≡ ok b
  unfolding parse_bool
  parse_bool-format_bool true = refl
  parse_bool-format_bool false = refl

  -- A literal command of letters.
  pub ping_direct :
      (c : Bool) (s : Server)
      → Methods.ping (direct_net out) c (s, []) ≡ (some (tt, none), true, (s, []))
  unfolding Methods.ping rounds round connect read_reply Methods.react_ping read write_line
      parse_line handle_command
  ping_direct true s = refl
  ping_direct false s = refl

  pub get_direct :
      (c : Bool) (name : Text) (s : Server)
      → IsWord name
      → rep.fits (Local.get name s).0 ≡ true
      → Methods.get (direct_net out) c (s, []) name ≡ (some (Local.get name s, none), true, (s, []))
  unfolding Methods.get Methods.react_get Methods.two_values
  get_direct c name s word fits =
      let v = (Local.get name s).0 in
      let b = (Local.get name s).1 in
      delivered out (codes "GET") (name ∷ []) Methods.react_get _ _ c s s (codes "RET")
        (rep.format_float v ∷ format_bool b ∷ []) (some (Local.get name s, none))
        (record { no_space = unfold has_byte in refl; no_newline = unfold has_byte in refl })
        (word, tt) (unfold has_prefix join_words in refl) ret-IsWord
        (float-IsWord v, (bool-IsWord b, tt)) (unfold has_prefix join_words in refl)
        (unfold handle_command text_eq in refl)
        (ground (arith, rep.parse_float-format_float v fits, parse_bool-format_bool b))

  handle-inc :
      (name : Text) (diff v : Float) (s s' : Server)
      → text_eq name [] ≡ false
      → rep.fits diff ≡ true
      → Local.inc name diff s ≡ some (v, s')
      → handle_command out (codes "INC") (name ∷ rep.format_float diff ∷ []) s
        ≡ some (write_line (codes "RET") (rep.format_float v ∷ []), s')
  unfolding handle_command
  handle-inc name diff v s s' named fits incs =
      ground (arith, named, rep.parse_float-format_float diff fits, incs)

  handle-set :
      (name : Text) (v old : Float) (s s' : Server)
      → text_eq name [] ≡ false
      → rep.fits v ≡ true
      → (errs : List (Option Error)) → len errs ≡ 0
      → Local.set out.send out.nodes name v s ≡ some (old, errs, s')
      → handle_command out (codes "SET") (name ∷ rep.format_float v ∷ []) s
        ≡ some (write_line (codes "RET") (rep.format_float old ∷ []), s')
  unfolding handle_command answer_set
  handle-set name v old s s' named fits errs fine sets =
      ground (arith, named, rep.parse_float-format_float v fits, sets, fine)

  pub inc_direct :
      (c : Bool) (name : Text) (diff v : Float) (s s' : Server)
      → IsWord name
      → text_eq name [] ≡ false
      → rep.fits diff ≡ true
      → rep.fits v ≡ true
      → Local.inc name diff s ≡ some (v, s')
      → Methods.inc (direct_net out) c (s, []) name diff ≡ (some (v, none), true, (s', []))
  unfolding Methods.inc Methods.react_value Methods.one_value
  inc_direct c name diff v s s' word named fits fits_v incs =
      delivered out (codes "INC") (name ∷ rep.format_float diff ∷ []) Methods.react_value _ _ c s s'
        (codes "RET") (rep.format_float v ∷ []) (some (v, none))
        (record { no_space = unfold has_byte in refl; no_newline = unfold has_byte in refl })
        (word, (float-IsWord diff, tt)) (unfold has_prefix join_words in refl) ret-IsWord
        (float-IsWord v, tt) (unfold has_prefix join_words in refl)
        (handle-inc name diff v s s' named fits incs)
        (ground (arith, rep.parse_float-format_float v fits_v))

  pub set_direct :
      (c : Bool) (name : Text) (v old : Float) (s s' : Server)
      → IsWord name
      → text_eq name [] ≡ false
      → rep.fits v ≡ true
      → rep.fits old ≡ true
      → (errs : List (Option Error)) → len errs ≡ 0
      → Local.set out.send out.nodes name v s ≡ some (old, errs, s')
      → Methods.set (direct_net out) c (s, []) name v ≡ (some (old, none), true, (s', []))
  unfolding Methods.set Methods.react_value Methods.one_value
  set_direct c name v old s s' word named fits fits_old errs fine sets =
      delivered out (codes "SET") (name ∷ rep.format_float v ∷ []) Methods.react_value _ _ c s s'
        (codes "RET") (rep.format_float old ∷ []) (some (old, none))
        (record { no_space = unfold has_byte in refl; no_newline = unfold has_byte in refl })
        (word, (float-IsWord v, tt)) (unfold has_prefix join_words in refl) ret-IsWord
        (float-IsWord old, tt) (unfold has_prefix join_words in refl)
        (handle-set name v old s s' named fits errs fine sets)
        (ground (arith, rep.parse_float-format_float old fits_old))

  join_plain :
      (hosts : List Text) → has_prefix (codes "ERR ") (join_words (codes "JOIN") hosts) ≡ false
  unfolding has_prefix join_words
  join_plain [] = refl
  join_plain (a ∷ args) = refl

  handle-join :
      (hosts : List Text) (s : Server)
      → out.joined ≡ none
      → handle_command out (codes "JOIN") hosts s
        ≡ some (write_line (codes "OK") [], Lifecycle.reset_for_join out.now s)
  unfolding handle_command Lifecycle.join
  handle-join hosts s joined = ground (arith, joined)

  handle-save :
      (json : Text) (s : Server)
      → out.encode s.replicas ≡ ok json
      → handle_command out (codes "SAVE") [] s ≡ some (write_line (codes "RET") (json ∷ []), s)
  unfolding handle_command answer Lifecycle.save
  handle-save json s encodes = ground (arith, encodes)

  pub join_direct :
      (c : Bool) (hosts : List Text) (s : Server)
      → All IsWord hosts
      → out.joined ≡ none
      → Methods.join (direct_net out) c (s, []) hosts
        ≡ (some (tt, none), true, (Lifecycle.reset_for_join out.now s, []))
  unfolding Methods.join Methods.react_join Lifecycle.join
  join_direct c hosts s words joined =
      delivered out (codes "JOIN") hosts Methods.react_join _ _ c s
        (Lifecycle.reset_for_join out.now s) (codes "OK") [] (some (tt, none))
        (record { no_space = unfold has_byte in refl; no_newline = unfold has_byte in refl }) words
        (join_plain hosts)
        (record { no_space = unfold has_byte in refl; no_newline = unfold has_byte in refl }) tt
        (unfold has_prefix join_words in refl) (handle-join hosts s joined) refl

  pub save_direct :
      (c : Bool) (json : Text) (s : Server)
      → IsWord json
      → out.encode s.replicas ≡ ok json
      → Methods.save (direct_net out) c (s, []) ≡ (some (json, none), true, (s, []))
  unfolding Methods.save Methods.react_save
  save_direct c json s word encodes =
      delivered out (codes "SAVE") [] Methods.react_save _ _ c s s (codes "RET") (json ∷ [])
        (some (json, none))
        (record { no_space = unfold has_byte in refl; no_newline = unfold has_byte in refl }) tt
        (unfold has_prefix join_words in refl) ret-IsWord (word, tt)
        (unfold has_prefix join_words in refl) (handle-save json s encodes) refl

  handle-members :
      (json : Text) (s : Server)
      → out.encode_members (map (λ n. (n.name, n.addr)) out.nodes) ≡ ok json
      → handle_command out (codes "MEMBERS") [] s ≡ some (write_line (codes "RET") (json ∷ []), s)
  unfolding handle_command answer
  handle-members json s encodes = ground (arith, encodes)

  pub members_direct :
      {Member : Type 0} (decode : Text → Result (List Member)) (members : List Member) (c : Bool)
      (json : Text) (s : Server)
      → IsWord json
      → out.encode_members (map (λ n. (n.name, n.addr)) out.nodes) ≡ ok json
      → decode json ≡ ok members
      → Methods.members (direct_net out) c (s, []) decode
        ≡ (some (some members, none), true, (s, []))
  unfolding Methods.members Methods.react_members
  members_direct decode members c json s word encodes decodes =
      delivered out (codes "MEMBERS") [] (Methods.react_members decode) _ _ c s s (codes "RET")
        (json ∷ []) (some (some members, none))
        (record { no_space = unfold has_byte in refl; no_newline = unfold has_byte in refl }) tt
        (unfold has_prefix join_words in refl) ret-IsWord (word, tt)
        (unfold has_prefix join_words in refl) (handle-members json s encodes)
        (ground (arith, decodes))

  pub close_direct :
      (c : Bool) (s : Server) → Methods.close (direct_net out) c (s, []) ≡ (none, false, (s, []))
  unfolding Methods.close
  close_direct true s = refl
  close_direct false s = refl
