-- ===== src/Api.antt =====
-- The client of api/api.go: each method makes up to two rounds of connecting, sending a command and
-- reading the reply. A round that fails to send or to read drops the connection.
pub mod Methods
pub mod Interface
pub mod Calls
pub mod Direct
pub mod Refinement
pub mod Losses
pub mod EndToEnd
pub mod Lists
use dcounter.Base.{ℕ, zero, suc, Bool, true, false, Option, none, some, List, [], ◌∷◌, Text}
use dcounter.Base.Result.{Error, Result, ok, err, ◌>>=◌}
use dcounter.Proto.{write_line, parse_line}

-- What the client meets: a world that answers. `dial` is net.Dial, `send` the write and flush of a
-- line, `recv` the reading of a line with its '\n' stripped off, `close` the connection's Close,
-- and `errorf` is fmt.Errorf on a format with no arguments.
pub record Net (World : Type 0) : Type 0 where
  pub dial : World → Option Error × World
  pub send : Text → World → Option Error × World
  pub recv : World → Result Text × World
  pub close : World → Option Error × World
  pub errorf : Text → Text

-- How a round ends: the method returns (`none` is a panic), or goes on with the value of the outer
-- variable `err`.
pub data Round (A : Type 0) : Type 0 where
  done : Option (A × Option Error) → Round A
  retry : Option Error → Round A

module _ {World : Type 0} (net : Net World) where
  -- `if a.c == nil { a.connect() }`, with whether there is a connection.
  unfoldable pub connect : Bool → World → Option Error × Bool × World
  connect true w = (none, true, w)
  connect false w =
      let (e, w') = net.dial w in elim e [ none ↦ (none, true, w') | some x ↦ (some x, false, w') ]

  -- `a.p.Read()`
  unfoldable pub read_reply : World → Result (Text × List Text) × World
  unfolding parse_line
  read_reply w = let (line, w') = net.recv w in (line >>= parse_line net.errorf, w')

  module _ {A : Type 0} (line : Text) (react : Text → List Text → Round A) (failed : A) where
    -- One round of the loop. After a failed read the outer `err` is the nil that the write left:
    -- the inner `err` hides it.
    unfoldable pub round : Bool → World → Round A × Bool × World
    unfolding connect read_reply
    round connected w =
        let (dialed, c, w₁) = connect connected w in
        elim dialed [
          | some e ↦ (done (some (failed, some e)), c, w₁)
          | none ↦
              let (sent, w₂) = net.send line w₁ in
              elim sent [
                | some e ↦ (retry (some e), false, w₂)
                | none ↦
                    let (reply, w₃) = read_reply w₂ in
                    elim reply [
                      | err _ ↦ (retry none, false, w₃)
                      | ok (cmd, args) ↦ (react cmd args, true, w₃)
                    ]
              ]
        ]

    -- `for i := 0; i < 2; i++`, and the return behind it.
    unfoldable pub rounds :
        A → ℕ → Option Error → Bool → World → Option (A × Option Error) × Bool × World
    unfolding round
    rounds fallback zero e connected w = (some (fallback, e), connected, w)
    rounds fallback (suc n) e connected w =
        let (r, c, w') = round connected w in
        elim r [ done o ↦ (o, c, w') | retry e' ↦ rounds fallback n e' c w' ]
