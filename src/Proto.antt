-- ===== src/Proto.antt =====
-- The line protocol between clients and a server (proto/proto.go): a command and its arguments,
-- separated by spaces, on a line.
pub mod RoundTrip
use dcounter.Base.{
  ℕ, ◌-◌, Bool, true, false, ◌&&◌, List, [], ◌∷◌, ◌++◌, Text, codes, drop, ◌==◌, if◌then◌else◌,
}
use dcounter.Base.Result.{Error, Result, message, error_text, ok, err, ◌>>=◌}
use dcounter.Wire.{newline, read_string}

abbrev pub space : ℕ
space = 32

-- `strings.HasPrefix(s, prefix)`
unfoldable pub has_prefix : Text → Text → Bool
has_prefix [] s = true
has_prefix (p ∷ ps) [] = false
has_prefix (p ∷ ps) (c ∷ s) = (c == p) && has_prefix ps s

-- `strings.Split(s, " ")`: the first part, and the parts after it.
unfoldable pub split : Text → Text × List Text
split [] = ([], [])
split (c ∷ s) =
    let (word, words) = split s in if c == space then ([], word ∷ words) else (c ∷ word, words)

-- `strings.Join(append([]string{cmd}, args...), " ")`
unfoldable pub join_words : Text → List Text → Text
join_words cmd [] = cmd
join_words cmd (a ∷ args) = cmd ++ space ∷ join_words a args

-- `Proto.Write`: the line that goes out.
unfoldable pub write_line : Text → List Text → Text
unfolding join_words
write_line cmd args = join_words cmd args ++ newline ∷ []

-- `Proto.Error`: the line of an error.
unfoldable pub error_line : Error → Text
unfolding write_line error_text
error_line e = write_line (codes "ERR") (error_text e ∷ [])

-- The part of `Proto.Read` after the '\n' is stripped off. `errorf` is `fmt.Errorf` on a format
-- with no arguments.
unfoldable pub parse_line : (Text → Text) → Text → Result (Text × List Text)
unfolding has_prefix split
parse_line errorf s =
    if has_prefix (codes "ERR ") s then err (message (errorf (drop 4 s))) else ok (split s)

-- `Proto.Read`: the command and the arguments, and what is left to read.
unfoldable pub read : (Text → Text) → Text → Result ((Text × List Text) × Text)
unfolding read_string parse_line
read errorf stream = do (s, rest) ← read_string stream; line ← parse_line errorf s; ok (line, rest)
