-- ===== src/Wire/RoundTrip.antt =====
-- What is written is read back.
use dcounter.Base.{
  has_byte, ℕ, ◌+◌, ◌^◌, ◌<◌, ◌≡◌, refl, true, false, [], ◌∷◌, ◌++◌, Text, length, take, drop,
  length-append, take_of_length, drop_of_length, arith,
}
use mathlib.Core.List.{append_assoc}
use dcounter.Base.Result.{ok}
use dcounter.Counter.{Counter}
use dcounter.Wire.{FloatRep, le32, of_le32, newline, read_string, counter_bytes, read_counter}

pub of_le32-le32 : (n : ℕ) → n < 2 ^ 32 → of_le32 (le32 n) ≡ n
unfolding of_le32 le32
of_le32-le32 n h = omega arith

length-le32 : (n : ℕ) → length (le32 n) ≡ 4
unfolding le32
length-le32 n = refl

pub read_string-line :
    (line rest : Text)
    → has_byte newline line ≡ false
    → read_string (line ++ newline ∷ rest) ≡ ok (line, rest)
unfolding read_string has_byte
read_string-line [] rest h = refl
read_string-line (c ∷ line) rest h = ground (arith, read_string-line line rest)

-- Three fields of 8, 8 and 4 bytes are cut apart where they were joined.
module _ (a b c rest : Text) (ha : length a ≡ 8) (hb : length b ≡ 8) (hc : length c ≡ 4) where
  abbrev joined : Text
  joined = (a ++ (b ++ c)) ++ rest

  length-joined : length joined ≡ 20 + length rest
  length-joined =
      omega (arith, length-append (a ++ (b ++ c)) rest, length-append a (b ++ c), length-append b c)

  first : take 8 joined ≡ a
  first = rw (append_assoc a (b ++ c) rest) (take_of_length 8 a ((b ++ c) ++ rest) ha)

  second : take 8 (drop 8 joined) ≡ b
  second =
      rw
        (
          append_assoc a (b ++ c) rest,
          drop_of_length 8 a ((b ++ c) ++ rest) ha,
          append_assoc b c rest,
        )
        (take_of_length 8 b (c ++ rest) hb)

  third : take 4 (drop 16 joined) ≡ c
  third =
      rw (append_assoc a (b ++ c) rest, append_assoc b c rest, ← append_assoc a b (c ++ rest))
        (rw (drop_of_length 16 (a ++ b) (c ++ rest) (omega (arith, length-append a b)))
          (take_of_length 4 c rest hc))

  left : drop 20 joined ≡ rest
  left =
      drop_of_length 20 (a ++ (b ++ c)) rest
        (omega (arith, length-append a (b ++ c), length-append b c))

module _ ⦃rep : FloatRep⦄ where
  -- The fields are float64 values and a uint32.
  pub record IsWireable (c : Counter) : Type 0 where
    pub up_fits : rep.fits c.up ≡ true
    pub down_fits : rep.fits c.down ≡ true
    pub revision_fits : c.revision < 2 ^ 32

  -- A counter whose up and down are float64 values and whose revision is below 2 ^ 32, written and
  -- followed by any bytes, is read back whole, and what is left to read is exactly those bytes.
  pub read_counter-counter_bytes :
      (c : Counter) (rest : Text)
      → IsWireable c
      → read_counter (counter_bytes c ++ rest) ≡ ok (c, rest)
  unfolding read_counter counter_bytes
  read_counter-counter_bytes c rest h =
      let bu = rep.bits c.up in
      let bd = rep.bits c.down in
      let br = le32 c.revision in
      let lu = rep.length-bits c.up in
      let ld = rep.length-bits c.down in
      ground (
        arith,
        length-joined bu bd br rest lu ld (length-le32 c.revision),
        first bu bd br rest lu ld (length-le32 c.revision),
        second bu bd br rest lu ld (length-le32 c.revision),
        third bu bd br rest lu ld (length-le32 c.revision),
        left bu bd br rest lu ld (length-le32 c.revision),
        rep.of_bits-bits c.up h.up_fits,
        rep.of_bits-bits c.down h.down_fits,
        of_le32-le32 c.revision h.revision_fits,
      )
