-- ===== src/Tests/Rep.antt =====
-- A representation of float64 values that meets `FloatRep`, for the whole numbers below 2 ^ 16 in
-- size and the special values: a sign and five digits, and a tag and two bytes.
use dcounter.Base.{
  has_byte, ℕ, suc, ◌+◌, ◌-◌, ◌*◌, ◌/◌, ◌%◌, ◌≡◌, refl, Bool, true, false, [], ◌∷◌, Text, codes,
  length, ltb, ◌==◌, if◌then◌else◌, arith,
}
use dcounter.Base.Int.{pos, negsuc}
use dcounter.Base.Result.{Result, message, ok, err}
use dcounter.Float.{Float, nan, inf, neg_inf, fin}
use dcounter.Wire.{FloatRep}

abbrev pub fits : Float → Bool
fits nan = true
fits inf = true
fits neg_inf = true
fits (fin (pos n)) = ltb n 65536
fits (fin (negsuc n)) = ltb n 65535

abbrev pub tagged : ℕ → ℕ → Text
tagged tag n = tag ∷ n % 256 ∷ n / 256 % 256 ∷ 0 ∷ 0 ∷ 0 ∷ 0 ∷ 0 ∷ []

abbrev pub bits : Float → Text
bits (fin (pos n)) = tagged 0 n
bits (fin (negsuc n)) = tagged 1 n
bits nan = tagged 2 0
bits inf = tagged 3 0
bits neg_inf = tagged 4 0

abbrev pub of_tag : ℕ → ℕ → Float
of_tag tag n =
    if tag == 0
    then fin (pos n)
    else if tag == 1
    then fin (negsuc n)
    else if tag == 2
    then nan
    else if tag == 3
    then inf
    else neg_inf

abbrev pub of_bits : Text → Float
of_bits (tag ∷ a ∷ b ∷ _) = of_tag tag (a + 256 * b)
of_bits _ = nan

abbrev pub digits : ℕ → ℕ → Text
digits sign n =
    sign
    ∷ (48 + n / 10000 % 10)
    ∷ (48 + n / 1000 % 10)
    ∷ (48 + n / 100 % 10)
    ∷ (48 + n / 10 % 10)
    ∷ (48 + n % 10)
    ∷ []

abbrev pub format_float : Float → Text
format_float nan = codes "NaN"
format_float inf = codes "+Inf"
format_float neg_inf = codes "-Inf"
format_float (fin (pos n)) = digits b'+' n
format_float (fin (negsuc n)) = digits b'-' (suc n)

abbrev pub of_digits : ℕ → ℕ → Result Float
of_digits sign n = if sign == b'+' then ok (fin (pos n)) else ok (fin (negsuc (n - 1)))

abbrev pub parse_float : Text → Result Float
parse_float (a ∷ b ∷ c ∷ []) = ok nan
parse_float (s ∷ b ∷ c ∷ d ∷ []) = if s == b'+' then ok inf else ok neg_inf
parse_float (s ∷ e ∷ d ∷ c ∷ b ∷ a ∷ []) =
    of_digits s ((e - 48) * 10000 + (d - 48) * 1000 + (c - 48) * 100 + (b - 48) * 10 + (a - 48))
parse_float _ = err (message (codes "invalid syntax"))

pub length-bits : (x : Float) → length (bits x) ≡ 8
length-bits nan = refl
length-bits inf = refl
length-bits neg_inf = refl
length-bits (fin (pos n)) = refl
length-bits (fin (negsuc n)) = refl

pub of_bits-bits : (x : Float) → fits x ≡ true → of_bits (bits x) ≡ x
of_bits-bits nan h = refl
of_bits-bits inf h = refl
of_bits-bits neg_inf h = refl
of_bits-bits (fin (pos n)) h = ground arith
of_bits-bits (fin (negsuc n)) h = ground arith

no_low_byte :
    (sign b n : ℕ) → (sign == b) ≡ false → ltb b 48 ≡ true → has_byte b (digits sign n) ≡ false
unfolding has_byte
no_low_byte sign b n h low = ground arith

pub format_float-no_space : (x : Float) → has_byte 32 (format_float x) ≡ false
unfolding has_byte
format_float-no_space nan = refl
format_float-no_space inf = refl
format_float-no_space neg_inf = refl
format_float-no_space (fin (pos n)) = no_low_byte b'+' 32 n refl refl
format_float-no_space (fin (negsuc n)) = no_low_byte b'-' 32 (suc n) refl refl

pub format_float-no_newline : (x : Float) → has_byte 10 (format_float x) ≡ false
unfolding has_byte
format_float-no_newline nan = refl
format_float-no_newline inf = refl
format_float-no_newline neg_inf = refl
format_float-no_newline (fin (pos n)) = no_low_byte b'+' 10 n refl refl
format_float-no_newline (fin (negsuc n)) = no_low_byte b'-' 10 (suc n) refl refl

pub parse_float-format_float : (x : Float) → fits x ≡ true → parse_float (format_float x) ≡ ok x
parse_float-format_float nan h = refl
parse_float-format_float inf h = refl
parse_float-format_float neg_inf h = refl
parse_float-format_float (fin (pos n)) h = ground arith
parse_float-format_float (fin (negsuc n)) h = ground arith

instance abbrev pub test_rep : FloatRep
test_rep = record {
  fits = fits;
  bits = bits;
  of_bits = of_bits;
  format_float = format_float;
  parse_float = parse_float;
  length-bits = length-bits;
  of_bits-bits = of_bits-bits;
  format_float-no_space = format_float-no_space;
  format_float-no_newline = format_float-no_newline;
  parse_float-format_float = parse_float-format_float;
}
