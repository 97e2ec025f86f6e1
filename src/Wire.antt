-- ===== src/Wire.antt =====
-- The bytes that servers exchange about a counter: what broadcastChange and set write
-- (server/api.go), and what readChange and readReset take apart (server/server.go).
pub mod RoundTrip
use dcounter.Base.{
  has_byte, ℕ, ◌+◌, ◌*◌, ◌/◌, ◌%◌, ◌≡◌, Bool, true, false, Option, List, [], ◌∷◌, ◌++◌, Text, codes,
  length, take, drop, ltb, ◌==◌, if◌then◌else◌,
}
use dcounter.Base.Result.{Error, Result, eof, message, ok, err}
use dcounter.Float.{Float}
use dcounter.Counter.{Counter}

-- What the standard library gives for a float64: its eight bytes (encoding/binary), and its
-- shortest decimal form (strconv.FormatFloat with 'f' and -1, strconv.ParseFloat). `fits` marks the
-- values that are a float64; of these, both forms read back. No decimal form holds a space or a
-- newline.
pub record FloatRep : Type 0 where
  pub fits : Float → Bool
  pub bits : Float → Text
  pub of_bits : Text → Float
  pub format_float : Float → Text
  pub parse_float : Text → Result Float
  pub length-bits : (x : Float) → length (bits x) ≡ 8
  pub of_bits-bits : (x : Float) → fits x ≡ true → of_bits (bits x) ≡ x
  pub format_float-no_space : (x : Float) → has_byte 32 (format_float x) ≡ false
  pub format_float-no_newline : (x : Float) → has_byte 10 (format_float x) ≡ false
  pub parse_float-format_float : (x : Float) → fits x ≡ true → parse_float (format_float x) ≡ ok x

-- `binary.LittleEndian` on a uint32.
unfoldable pub le32 : ℕ → Text
le32 n = n % 256 ∷ n / 256 % 256 ∷ n / 65536 % 256 ∷ n / 16777216 % 256 ∷ []

unfoldable pub of_le32 : Text → ℕ
of_le32 (a ∷ b ∷ c ∷ d ∷ _) = a + 256 * b + 65536 * c + 16777216 * d
of_le32 _ = 0

-- `const ( resetMessage = iota; changeMessage )`
abbrev pub reset_message : ℕ
reset_message = 0

abbrev pub change_message : ℕ
change_message = 1

abbrev pub newline : ℕ
newline = 10

-- `reader.ReadString('\n')` with the '\n' stripped off: the line, and what is left to read.
unfoldable pub read_string : Text → Result (Text × Text)
read_string [] = err eof
read_string (c ∷ cs) =
    let rest = read_string cs in
    if c == newline
    then ok ([], cs)
    else elim rest [ ok (line, left) ↦ ok (c ∷ line, left) | err e ↦ err e ]

module _ ⦃rep : FloatRep⦄ where
  -- `binary.Write(w, binary.LittleEndian, c)`
  unfoldable pub counter_bytes : Counter → Text
  counter_bytes c = rep.bits c.up ++ (rep.bits c.down ++ le32 c.revision)

  -- `binary.Read(reader, binary.LittleEndian, &c)`
  unfoldable pub read_counter : Text → Result (Counter × Text)
  read_counter bytes =
      if length bytes == 0
      then err eof
      else if ltb (length bytes) 20
      then err (message (codes "unexpected EOF"))
      else ok (
        record {
          up = rep.of_bits (take 8 bytes);
          down = rep.of_bits (take 8 (drop 8 bytes));
          revision = of_le32 (take 4 (drop 16 bytes));
        },
        drop 20 bytes,
      )

  -- The message of broadcastChange: the type, the member's name, the counter's name, the counter.
  unfoldable pub change_bytes : Text → Text → Counter → Text
  change_bytes member_name name c =
      change_message ∷ member_name ++ newline ∷ (name ++ newline ∷ counter_bytes c)

  -- The message that set sends: the type, the counter's name, the counter as the sender has it.
  unfoldable pub reset_bytes : Text → Counter → Text
  reset_bytes name c = reset_message ∷ name ++ newline ∷ counter_bytes c
