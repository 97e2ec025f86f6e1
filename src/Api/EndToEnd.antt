-- ===== src/Api/EndToEnd.antt =====
-- The client and a server together (api/api.go, server/api.go).
use mathlib.Core.Path.{subst}
use mathlib.Core.List.{append-nil}
use dcounter.Base.{
  has_byte, ◌≡◌, ◌∙◌, refl, sym, ap, Bool, true, false, none, some, [], ◌∷◌, ◌++◌, Text, text_eq,
  text_eq_refl, arith, codes,
}
use dcounter.Base.Result.{ok, err, eof}
use dcounter.Float.{Float, zero_float, ◌+F◌}
use dcounter.Float.Laws.{IsFinite}
use dcounter.Counter.{value}
use dcounter.Counter.Growth.{IsFiniteCounter, inc_counter_grows}
use dcounter.Wire.{FloatRep, read_string}
use dcounter.Proto.{write_line, read, has_prefix, join_words}
use dcounter.Proto.RoundTrip.{IsWord, read-write_line}
use dcounter.Server.{Server}
use dcounter.Server.Local
use dcounter.Server.Local.{get}
use dcounter.Server.Reads.{HasOwn, own_counter, inc_adds}
use dcounter.Server.Handle.{Outside, handle_command}
use dcounter.Api.{Net}
use dcounter.Api.Methods.{inc}

pub ret-IsWord : IsWord (codes "RET")
ret-IsWord = record { no_space = unfold has_byte in refl; no_newline = unfold has_byte in refl }

module _ ⦃rep : FloatRep⦄ where
  pub float-IsWord : (x : Float) → IsWord (rep.format_float x)
  float-IsWord x = record {
    no_space = rep.format_float-no_space x;
    no_newline = rep.format_float-no_newline x;
  }

module _ ⦃rep : FloatRep⦄ (out : Outside) where
  -- The server takes a line, and the reply that it writes.
  abbrev pub serve : Text → Server → Text × Server
  serve line s = elim (read out.errorf line) [
    | err e ↦ ([], s)
    | ok ((cmd, args), rest) ↦ elim (handle_command out cmd args s) [
      | none ↦ ([], s)
      | some (reply, s') ↦ (reply, s')
    ]
  ]

  -- A connection that delivers: the world is the server and what the client has not read.
  abbrev pub direct_net : Net (Server × Text)
  direct_net = record {
    dial = λ w. (none, w);
    send = λ line w. let (reply, s') = serve line w.0 in (none, (s', w.1 ++ reply));
    recv = λ w. elim (read_string w.1) [
      | ok (line, rest) ↦ (ok line, (w.0, rest))
      | err e ↦ (err e, w)
    ];
    close = λ w. (none, w);
    errorf = out.errorf;
  }

  -- A connection that delivers the commands and loses the replies.
  abbrev pub lossy_net : Net Server
  lossy_net = record {
    dial = λ s. (none, s);
    send = λ line s. (none, (serve line s).1);
    recv = λ s. (err eof, s);
    close = λ s. (none, s);
    errorf = out.errorf;
  }

  -- An INC line that the client writes, at a server that increments.
  serve-inc :
      (name : Text) (diff v : Float) (s s' : Server)
      → IsWord name
      → text_eq name [] ≡ false
      → rep.fits diff ≡ true
      → Local.inc name diff s ≡ some (v, s')
      → serve (write_line (codes "INC") (name ∷ rep.format_float diff ∷ [])) s
        ≡ (write_line (codes "RET") (rep.format_float v ∷ []), s')
  unfolding handle_command
  serve-inc name diff v s s' word named fits incs =
      let line = write_line (codes "INC") (name ∷ rep.format_float diff ∷ []) in
      let inc_word : IsWord (codes "INC") = record {
        no_space = unfold has_byte in refl;
        no_newline = unfold has_byte in refl;
      } in
      ground (
        arith,
        ap (read out.errorf) (sym (append-nil line))
            ∙ read-write_line out.errorf (codes "INC") (name ∷ rep.format_float diff ∷ []) []
                inc_word (word, (float-IsWord diff, tt)) (unfold has_prefix join_words in refl),
        named,
        rep.parse_float-format_float diff fits,
        incs,
      )

  -- A client's Inc over a connection that loses the replies: the server counts the amount twice,
  -- and the client returns 0 and no error.
  pub inc_counted_twice :
      (c : Bool) (name : Text) (diff : Float) (s : Server)
      → IsWord name
      → text_eq name [] ≡ false
      → rep.fits diff ≡ true
      → HasOwn s
      → IsFinite diff
      → IsFiniteCounter (own_counter name s)
      → (s'' : Server) × (inc lossy_net c s name diff ≡ (some (zero_float, none), false, s''))
        × ((get name s'').0 ≡ (get name s).0 +F diff +F diff)
  unfolding inc
  inc_counted_twice c name diff s word named fits has_own finite own_finite =
      let (s', first, total, _, own', has_own') = inc_adds name diff s has_own finite own_finite in
      let moved : (get name s').0 ≡ (get name s).0 +F diff =
        ground (arith, total name, text_eq_refl name) in
      let grown = inc_counter_grows diff (own_counter name s) finite own_finite in
      let (s'', second, total', _, _, _) =
        inc_adds name diff s' has_own' finite (subst IsFiniteCounter (sym own') grown.1) in
      let moved' : (get name s'').0 ≡ (get name s').0 +F diff =
        ground (arith, total' name, text_eq_refl name) in
      (
        s'',
        ground (
          arith,
          serve-inc name diff (value (own_counter name s) +F diff) s s' word named fits first,
          serve-inc name diff (value (own_counter name s') +F diff) s' s'' word named fits second,
        ),
        moved' ∙ ap (λ x. x +F diff) moved,
      )
