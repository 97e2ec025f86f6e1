-- ===== src/Server/Saving.antt =====
-- What Save says of the file that it writes (server/server.go).
use dcounter.Base.{◌≡◌, ◌↔◌, refl, Option, none, some, [], ◌∷◌, ◌++◌, Text, arith}
use dcounter.Base.Result.{Error, Result, ok, err}
use dcounter.Wire.{newline}
use dcounter.Server.{Server, Counters}
use dcounter.Server.Lifecycle.{write_json, save_file}

-- The counters are in the file: it was created, and their JSON was made and written without an
-- error.
abbrev pub IsWritten :
    Option Error → (Counters → Result Text) → (Text → Text × Option Error) → Server → Type 0
IsWritten created encode write s =
    (created ≡ none)
    × ((json : Text) × (encode s.replicas ≡ ok json) × ((write (json ++ newline ∷ [])).1 ≡ none))

-- The deferred function neither hides an error nor adds one.
save_file-none :
    (encode : Counters → Result Text) (write : Text → Text × Option Error) (closed : Option Error)
    (s : Server)
    → ((save_file none encode write closed s).1 ≡ none)
      ↔ ((write_json (encode s.replicas) write).1 ≡ none)
unfolding save_file
save_file-none encode write none s = (λ h. h, λ h. h)
save_file-none encode write (some x) s = (λ h. ground (arith, h), λ h. ground (arith, h))

write_json-none :
    (result : Result Text) (write : Text → Text × Option Error)
    → ((write_json result write).1 ≡ none)
      ↔ ((json : Text) × (result ≡ ok json) × ((write (json ++ newline ∷ [])).1 ≡ none))
unfolding write_json
write_json-none (ok json) write = (λ h. (json, refl, h), λ (j, e, h). ground (arith, e, h))
write_json-none (err x) write = (λ h. ground (arith, h), λ (_, e, _). ground (arith, e))

-- Save returns no error exactly if the file was created and the JSON of the counters was made and
-- written to it without an error, whatever the file's Close says: an error of Close alone is lost.
pub save_file_succeeds_iff :
    (created : Option Error) (encode : Counters → Result Text) (write : Text → Text × Option Error)
    (closed : Option Error) (s : Server)
    → ((save_file created encode write closed s).1 ≡ none) ↔ IsWritten created encode write s
unfolding save_file
save_file_succeeds_iff (some e) encode write closed s =
    (λ h. ground (arith, h), λ (h, _). ground (arith, h))
save_file_succeeds_iff none encode write closed s =
    let file = save_file-none encode write closed s in
    let json = write_json-none (encode s.replicas) write in
    (λ h. (refl, json.0 (file.0 h)), λ (_, h). file.1 (json.1 h))
