-- ===== src/Auth/Decode/Encoded.antt =====
-- Files in UTF-16 are decoded.
use azure_aci.Prelude.{
  ℕ, ◌*◌, ◌-◌, ◌/◌, ◌%◌, Bool, false, ◌&&◌, eqb, List, [], ◌∷◌, ◌≡◌, refl, ok, length, ap, arith,
}
use azure_aci.Auth.Decode.{
  Bytes, Utf, utf16_big_endian, utf16_little_endian, ByteOrder, big_endian, little_endian, word,
  read_words, decoded_words, decode_rest, decode,
}

-- What utfbom documents: the mark of big-endian UTF-16 is FE FF, and that of little-endian UTF-16 is FF FE
-- unless two zero bytes make it the mark of UTF-32.
abbrev pub nul_first : List ℕ → Bool
nul_first [] = false
nul_first (w ∷ ws) = eqb w 0

abbrev pub nul_bytes_first : Bytes → Bool
nul_bytes_first (a ∷ b ∷ bytes) = eqb a 0 && eqb b 0
nul_bytes_first bytes = false

pub record UtfLaws (u : Utf) : Type 0 where
  pub big : (rest : Bytes) → u.skip (254 ∷ 255 ∷ rest) ≡ (rest, utf16_big_endian)
  pub little :
      (rest : Bytes)
      → nul_bytes_first rest ≡ false
      → u.skip (255 ∷ 254 ∷ rest) ≡ (rest, utf16_little_endian)

-- The bytes of words, and those of a file.
abbrev pub encode_words : ByteOrder → List ℕ → Bytes
encode_words order [] = []
encode_words little_endian (w ∷ ws) = w % 256 ∷ w / 256 ∷ encode_words little_endian ws
encode_words big_endian (w ∷ ws) = w / 256 ∷ w % 256 ∷ encode_words big_endian ws

abbrev pub encode_file : ByteOrder → List ℕ → Bytes
encode_file little_endian ws = 255 ∷ 254 ∷ encode_words little_endian ws
encode_file big_endian ws = 254 ∷ 255 ∷ encode_words big_endian ws

length-encode_words :
    (order : ByteOrder) (ws : List ℕ) → length (encode_words order ws) ≡ 2 * length ws
length-encode_words order [] = refl
length-encode_words little_endian (w ∷ ws) = omega (arith, length-encode_words little_endian ws)
length-encode_words big_endian (w ∷ ws) = omega (arith, length-encode_words big_endian ws)

read_words-encode_words :
    (order : ByteOrder) (ws : List ℕ) → read_words order (length ws) (encode_words order ws) ≡ ok ws
unfolding read_words word
read_words-encode_words order [] = refl
read_words-encode_words little_endian (w ∷ ws) =
    rw (read_words-encode_words little_endian ws) (ap (λ v. ok (v ∷ ws)) (omega arith))
read_words-encode_words big_endian (w ∷ ws) =
    rw (read_words-encode_words big_endian ws) (ap (λ v. ok (v ∷ ws)) (omega arith))

words_of_file :
    (order : ByteOrder) (a b : ℕ) (ws : List ℕ)
    → length (a ∷ b ∷ encode_words order ws) / 2 - 1 ≡ length ws
words_of_file order a b ws = omega (arith, length-encode_words order ws)

decoded_words-encode_words :
    (u : Utf) (order : ByteOrder) (a b : ℕ) (ws : List ℕ)
    → decoded_words u order (a ∷ b ∷ encode_words order ws) (encode_words order ws)
      ≡ ok (u.to_utf8 ws)
unfolding decoded_words
decoded_words-encode_words u order a b ws =
    rw (words_of_file order a b ws, read_words-encode_words order ws) refl

nul_bytes_first-encode_words :
    (ws : List ℕ) → nul_first ws ≡ false → nul_bytes_first (encode_words little_endian ws) ≡ false
nul_bytes_first-encode_words [] h = refl
nul_bytes_first-encode_words (w ∷ ws) h = ground (arith, h)

-- A file in UTF-16 of either byte order, with its mark, whose first word is not zero, is decoded into the
-- UTF-8 of its words.
pub decode-encode_file :
    (u : Utf)
    → UtfLaws u
    → (order : ByteOrder) (ws : List ℕ) → nul_first ws ≡ false
    → decode u (encode_file order ws) ≡ ok (u.to_utf8 ws)
unfolding decode decode_rest decoded_words
decode-encode_file u laws little_endian ws h =
    rw (laws.little (encode_words little_endian ws) (nul_bytes_first-encode_words ws h))
      (decoded_words-encode_words u little_endian 255 254 ws)
decode-encode_file u laws big_endian ws h =
    rw (laws.big (encode_words big_endian ws)) (decoded_words-encode_words u big_endian 254 255 ws)
