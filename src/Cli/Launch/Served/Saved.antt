-- ===== src/Cli/Launch/Served/Saved.antt =====
-- What the file of `--save` holds while the `server` command runs (server.go).
use dcounter.Base.{◌≡◌, ◌⊎◌, none, Text}
use dcounter.Wire.{FloatRep}
use dcounter.Server.{Server}
use dcounter.Server.Lifecycle.{save_file}
use dcounter.Server.Run.{Reach}
use dcounter.Cli.Launch.{Options, Host}
use dcounter.Cli.Launch.Served.{Disk, Served}

module _ ⦃rep : FloatRep⦄ (o : Options) (h : Host) where
  -- A text is what was there at first, or what a Save of a server that was reached put there.
  abbrev pub IsSaved : Text → Text → Type 0
  IsSaved first file =
      (file ≡ first)
      ⊎ ((s : Server) × Reach o.name h.now s
          × (d : Disk) × (file ≡ (save_file none d.encode d.write d.closed s).0))

  record IsServing (first : Text) (q : Served) : Type 0 where
    reached : Reach o.name h.now q.server
    in_file : IsSaved first q.file
