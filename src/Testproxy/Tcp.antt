-- ===== src/Testproxy/Tcp.antt =====
-- The TCP proxy of testproxy/tcp.go: the accept loop in turns from one place where it waits to the
-- next, and the two loops of `handle` that copy between connections.
pub mod Stops
pub mod Copies
use dcounter.Base.{
  ℕ, zero, suc, ◌+◌, Bool, true, false, Option, none, some, List, [], ◌∷◌, ltb, ◌==◌, ◌&&◌,
  if◌then◌else◌,
}
use dcounter.Base.Result.{Error}

-- Where the accept loop is: before the check of `stop`, in the sleep up to the end of an outage,
-- before ListenTCP, in Accept, or past its end; a panic ends the program.
pub data Phase : Type 0 where
  at_check : Phase
  sleeping : Phase
  at_listen : Phase
  accepting : Phase
  returned : Phase
  panicked : Phase

-- `p.in`: nil, a listener, or one that was closed.
pub data Listener : Type 0 where
  nil : Listener
  listening : Listener
  closed : Listener

-- The proxy, the loop's phase, and the connections of `conns`.
pub record Tcp : Type 0 where
  pub stop : Bool
  pub timeout : ℕ
  pub listener : Listener
  pub phase : Phase
  pub conns : ℕ

-- What Accept gives on an open listener.
pub data Accepted : Type 0 where
  connection : Accepted
  failed : Error → Accepted

-- `NewTCP`, with the error of ResolveTCPAddr, which panics.
unfoldable pub new_tcp : Option Error → Option Tcp
new_tcp (some _) = none
new_tcp none =
    some (record { stop = false; timeout = 0; listener = nil; phase = at_check; conns = 0 })

-- The return of Accept: on a closed listener all connections are closed and the outer loop goes on.
unfoldable pub accept : Accepted → Tcp → Tcp
accept accepted p = elim p.listener [
  | listening ↦ elim accepted [
    | connection ↦ record p { conns = p.conns + 1 }
    | failed _ ↦ record p { phase = panicked }
  ]
  | closed ↦ record p { phase = at_check; conns = 0 }
  | nil ↦ p
]

-- A turn of the loop, at a time, with the error of ListenTCP and what Accept gives.
unfoldable pub turn : ℕ → Option Error → Accepted → Tcp → Tcp
unfolding accept
turn now listened accepted p = elim p.phase [
  | at_check ↦
      if p.stop
      then record p { phase = returned }
      else if ltb now p.timeout
      then record p { phase = sleeping }
      else record p { phase = at_listen }
  | sleeping ↦ record p { phase = at_listen }
  | at_listen ↦ elim listened [
    | none ↦ record p { listener = listening; phase = accepting; conns = 0 }
    | some _ ↦ record p { phase = panicked }
  ]
  | accepting ↦ accept accepted p
  | returned ↦ p
  | panicked ↦ p
]

-- `p.in.Close()`, whose error is dropped: on nil and on a closed listener it does nothing.
unfoldable pub close_in : Tcp → Tcp
close_in p = elim p.listener [ nil ↦ p | listening ↦ record p { listener = closed } | closed ↦ p ]

-- `Timeout`
unfoldable pub set_timeout : ℕ → ℕ → Tcp → Tcp
unfolding close_in
set_timeout now timeout p = close_in (record p { timeout = now + timeout })

-- `Stop`
unfoldable pub set_stop : Tcp → Tcp
unfolding close_in
set_stop p = close_in (record p { stop = true })

-- Turns of the loop.
unfoldable pub run : List (ℕ × Option Error × Accepted) → Tcp → Tcp
unfolding turn
run [] p = p
run ((now, listened, accepted) ∷ turns) p = run turns (turn now listened accepted p)

-- A loop of `handle` over what its calls of io.CopyN return, a number of bytes with no error
-- (`none`), io.EOF, or another error: whether the loop has returned, and the numbers that it logs.
pub data CopyEnd : Type 0 where
  no_error : CopyEnd
  at_eof : CopyEnd
  broken : Error → CopyEnd

unfoldable pub copy_loop : List (ℕ × CopyEnd) → Bool × List ℕ
copy_loop [] = (false, [])
copy_loop ((n, broken _) ∷ copies) = (true, [])
copy_loop ((n, no_error) ∷ copies) =
    let (over, logged) = copy_loop copies in (over, if n == 0 then logged else n ∷ logged)
copy_loop ((n, at_eof) ∷ copies) =
    let (over, logged) = copy_loop copies in (over, if n == 0 then logged else n ∷ logged)

-- `handle`: a Dial that fails panics, `none`; else it waits for both loops, and then closes its
-- connection to the server.
unfoldable pub handle :
    Option Error → List (ℕ × CopyEnd) → List (ℕ × CopyEnd) → Option (Bool × List ℕ × List ℕ)
unfolding copy_loop
handle (some _) back forth = none
handle none back forth =
    let (back_over, back_logged) = copy_loop back in
    let (forth_over, forth_logged) = copy_loop forth in
    some (back_over && forth_over, back_logged, forth_logged)
