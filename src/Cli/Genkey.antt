-- ===== src/Cli/Genkey.antt =====
-- The `genkey` command (genkey.go). `random` is what rand.Read of crypto/rand puts into the 32
-- bytes, or its error, and `encode` base64's EncodeToString.
use mathlib.Core.List.{append_cancel_right}
use dcounter.Base.{◌≡◌, refl, sym, ◌∙◌, ap, false, List, [], ◌∷◌, ◌++◌, Text, text_eq, arith}
use dcounter.Base.Result.{Result, ok, err}
use dcounter.Wire.{FloatRep, newline}
use dcounter.Server.{Server}
use dcounter.Server.Address.{Config}
use dcounter.Server.Lists.{AreMaps}
use dcounter.Cli.{Output, printed, log_error}
use dcounter.Cli.Launch.{Options, Host, launch, running, secret}
use dcounter.Cli.Launch.Started.{launch-running}

unfoldable pub genkey : (Text → Text) → Result Text → List Output
genkey encode random = elim random [
  | ok bytes ↦ printed (encode bytes ++ newline ∷ []) ∷ []
  | err e ↦ log_error e
]

-- The line of a key comes from random bytes that it encodes.
genkey_lem :
    (encode : Text → Text) (random : Result Text) (key : Text)
    → genkey encode random ≡ printed (key ++ newline ∷ []) ∷ []
    → (bytes : Text) × (random ≡ ok bytes) × (encode bytes ≡ key)
unfolding genkey
genkey_lem encode (ok bytes) key e =
    (bytes, refl, append_cancel_right (encode bytes) key (newline ∷ []) (ground (arith, e)))
genkey_lem encode (err x) key e = ground (arith, e)

secret-given :
    (o : Options) (h : Host) (config : Config)
    → text_eq o.key [] ≡ false
    → secret o h config ≡ h.decode_key o.key
unfolding secret
secret-given o h config e = rw e refl

-- A server that runs with the key that `genkey` printed, a text that is not empty, has as its
-- secret the random bytes that `genkey` drew. DecodeString reads what EncodeToString made, and the
-- file of `--load` holds each key once.
pub genkey_secret :
    ⦃rep : FloatRep⦄ (encode : Text → Text) (random : Result Text) (o : Options) (h : Host)
    (s : Server) (c : Config) (log : List Text)
    → ((bytes : Text) → h.decode_key (encode bytes) ≡ ok bytes)
    → AreMaps (h.document o.load_file)
    → genkey encode random ≡ printed (o.key ++ newline ∷ []) ∷ []
    → text_eq o.key [] ≡ false
    → launch o h ≡ running log s c
    → random ≡ ok c.secret_key
genkey_secret encode random o h s c log decodes maps line given runs =
    let (bytes, drawn, encoded) = genkey_lem encode random o.key line in
    let (_, _, _, _, _, _, keyed) = launch-running o h s c log maps runs in
    drawn
    ∙ sym (decodes bytes)
    ∙ ap h.decode_key encoded
    ∙ sym (secret-given o h h.defaults given)
    ∙ keyed
