-- ===== src/Proto/RoundTrip.antt =====
-- What is written is read back.
use mathlib.Core.List.{append_assoc}
use dcounter.Base.{
  has_byte, ℕ, ◌≡◌, ◌∙◌, refl, ap, true, false, ◌||◌, List, [], ◌∷◌, ◌++◌, Text, codes, arith,
}
use dcounter.Base.Result.{Error, message, error_text, ok, err}
use dcounter.Counter.Growth.{All}
use dcounter.Wire.{newline}
use dcounter.Wire.RoundTrip.{read_string-line}
use dcounter.Proto.{space, has_prefix, split, join_words, write_line, error_line, read}

-- A word that can stand in a line: no space and no newline.
pub record IsWord (w : Text) : Type 0 where
  pub no_space : has_byte space w ≡ false
  pub no_newline : has_byte newline w ≡ false

pub has_byte-append :
    (b : ℕ) (xs ys : Text) → has_byte b (xs ++ ys) ≡ (has_byte b xs || has_byte b ys)
unfolding has_byte
has_byte-append b [] ys = refl
has_byte-append b (x ∷ xs) ys = ground (arith, has_byte-append b xs ys)

split-word : (w : Text) → has_byte space w ≡ false → split w ≡ (w, [])
unfolding split has_byte
split-word [] h = refl
split-word (c ∷ w) h = ground (arith, split-word w, h)

split-cons :
    (w s : Text)
    → has_byte space w ≡ false
    → split (w ++ space ∷ s) ≡ (w, (split s).0 ∷ (split s).1)
unfolding split has_byte
split-cons [] s h = refl
split-cons (c ∷ w) s h = ground (arith, split-cons w s, h)

pub split-join_words :
    (cmd : Text) (args : List Text)
    → IsWord cmd
    → All IsWord args
    → split (join_words cmd args) ≡ (cmd, args)
unfolding join_words
split-join_words cmd [] h hs = split-word cmd h.no_space
split-join_words cmd (a ∷ args) h hs =
    split-cons cmd (join_words a args) h.no_space
    ∙ ap (λ p. (cmd, p.0 ∷ p.1)) (split-join_words a args hs.0 hs.1)

has_byte-space : (s : Text) → has_byte newline (space ∷ s) ≡ has_byte newline s
unfolding has_byte
has_byte-space s = refl

pub join_words-no_newline :
    (cmd : Text) (args : List Text)
    → IsWord cmd
    → All IsWord args
    → has_byte newline (join_words cmd args) ≡ false
unfolding join_words
join_words-no_newline cmd [] h hs = h.no_newline
join_words-no_newline cmd (a ∷ args) h hs = ground (
  arith,
  has_byte-append newline cmd (space ∷ join_words a args),
  has_byte-space (join_words a args),
  h.no_newline,
  join_words-no_newline a args hs.0 hs.1,
)

-- A command whose line is no error line, and arguments, all of them words, are read as they were
-- written, and the reader then stands behind the line.
pub read-write_line :
    (errorf : Text → Text) (cmd : Text) (args : List Text) (rest : Text)
    → IsWord cmd
    → All IsWord args
    → has_prefix (codes "ERR ") (join_words cmd args) ≡ false
    → read errorf (write_line cmd args ++ rest) ≡ ok ((cmd, args), rest)
unfolding read write_line
read-write_line errorf cmd args rest h hs plain = ground (
  arith,
  append_assoc (join_words cmd args) (newline ∷ []) rest,
  read_string-line (join_words cmd args) rest (join_words-no_newline cmd args h hs),
  plain,
  split-join_words cmd args h hs,
)

has_prefix-append : (p s : Text) → has_prefix p (p ++ s) ≡ true
unfolding has_prefix
has_prefix-append [] s = refl
has_prefix-append (c ∷ p) s = ground (arith, has_prefix-append p s)

-- An error whose text holds no newline is read as an error, with the text that fmt.Errorf makes of
-- it.
pub read-error_line :
    (errorf : Text → Text) (e : Error) (rest : Text)
    → has_byte newline (error_text e) ≡ false
    → read errorf (error_line e ++ rest) ≡ err (message (errorf (error_text e)))
unfolding read error_line
read-error_line errorf e rest plain =
    let line = codes "ERR " ++ error_text e in
    ground (
      arith,
      append_assoc line (newline ∷ []) rest,
      read_string-line line rest (unfold has_byte in plain),
    )
