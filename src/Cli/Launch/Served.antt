-- ===== src/Cli/Launch/Served.antt =====
-- The `server` command (server.go) while it runs, with the goroutine that saves at intervals, and
-- its end after a signal.
pub mod Saved
use dcounter.Base.{
  ℕ, ◌+◌, Bool, true, false, Option, none, some, List, [], ◌∷◌, ◌++◌, Text, text_eq, ltb,
  if◌then◌else◌,
}
use dcounter.Base.Result.{Error, Result}
use dcounter.Wire.{FloatRep}
use dcounter.Server.{Server, Counters}
use dcounter.Server.Lifecycle.{save_file, stop}
use dcounter.Server.Run.{Step}
use dcounter.Cli.Launch.{Options, log_lines}

-- What a Save meets: os.Create, encoding/json, the writing of a text, and Close.
pub record Disk : Type 0 where
  pub created : Option Error
  pub encode : Counters → Result Text
  pub write : Text → Text × Option Error
  pub closed : Option Error

-- The server, what stands in the file of `--save`, when the goroutine that saves wakes up (`none`
-- without `--save`), whether the pidfile stands there, and the log.
pub record Served : Type 0 where
  pub server : Server
  pub file : Text
  pub wakes : Option ℕ
  pub has_pidfile : Bool
  pub log : List Text

-- The goroutine is started with `--save` only, and sleeps first.
unfoldable pub begin : Options → ℕ → Text → List Text → Server → Served
unfolding text_eq
begin o now file log s = record {
  server = s;
  file = file;
  wakes = if text_eq o.saving_file [] then none else some (now + o.save_interval);
  has_pidfile = if text_eq o.pidfile [] then false else true;
  log = log;
}

-- A round of the goroutine at a time: it sleeps on, or saves and logs an error. A file that could
-- not be created is as it was.
unfoldable pub save_round : Options → ℕ → Disk → Served → Served
unfolding save_file log_lines
save_round o now d q = elim q.wakes [
  | none ↦ q
  | some at ↦
      if ltb now at
      then q
      else let (written, e) = save_file d.created d.encode d.write d.closed q.server in
        record q {
          file = elim d.created [ none ↦ written | some _ ↦ q.file ];
          wakes = some (now + o.save_interval);
          log = q.log ++ log_lines e;
        }
]

-- After the signal: the deferred Stop, whose error is logged, and the removal of a pidfile, whose
-- error is dropped. `none` is a panic.
unfoldable pub shut_down : Option Error → Option Error → Option Error → Served → Option Served
unfolding stop log_lines
shut_down left down removed q = elim (stop left down q.server) [
  | none ↦ none
  | some (s, e) ↦ some (record q {
    server = s;
    wakes = none;
    has_pidfile = elim removed [ none ↦ false | some _ ↦ q.has_pidfile ];
    log = q.log ++ log_lines e;
  })
]

module _ ⦃rep : FloatRep⦄ (o : Options) where
  -- The command in its run: steps of the server, and rounds of saving.
  pub data Serves (p : Served) : Served → Type 0 where
    began : Serves p p
    handled :
        {q : Served} {s : Server}
        → Serves p q
        → Step q.server s
        → Serves p (record q { server = s })
    saved : {q : Served} (now : ℕ) (d : Disk) → Serves p q → Serves p (save_round o now d q)
