-- ===== src/Auth/Decode.antt =====
-- Authentication.decode of pkg/auth/auth.go: a file in UTF-16 becomes UTF-8.
pub mod Encoded
use azure_aci.Prelude.{
  ℕ, zero, suc, ◌+◌, ◌*◌, ◌-◌, ◌/◌, ◌%◌, Bool, false, ◌&&◌, eqb, List, [], ◌∷◌, ◌≡◌, refl, Result,
  ok, err, plain, Error, ◌>>=◌, length, ap, arith,
}

abbrev pub Bytes : Type 0
Bytes = List ℕ

-- The encodings that utfbom.Skip tells apart.
pub data Encoding : Type 0 where
  unknown utf8 utf16_big_endian utf16_little_endian utf32_big_endian utf32_little_endian : Encoding

-- utfbom.Skip, and utf16.Decode followed by the conversions to a string and to bytes.
pub record Utf : Type 0 where
  pub skip : Bytes → Bytes × Encoding
  pub to_utf8 : List ℕ → Bytes

-- The order of the bytes of a word.
pub data ByteOrder : Type 0 where
  little_endian big_endian : ByteOrder

unfoldable pub word : ByteOrder → ℕ → ℕ → ℕ
word little_endian a b = a + 256 * b
word big_endian a b = 256 * a + b

abbrev pub unexpected_eof : Error
unexpected_eof = plain "unexpected EOF"

-- binary.Read into `n` words.
pub read_words : ByteOrder → ℕ → Bytes → Result (List ℕ)
unfolding word
read_words order zero bytes = ok []
read_words order (suc n) (a ∷ b ∷ bytes) = do
  words ← read_words order n bytes
  ok (word order a b ∷ words)
read_words order (suc n) bytes = err unexpected_eof

-- The file `b` has a mark of two bytes where this is called, so `len(b)/2 - 1` is not negative.
unfoldable pub decoded_words : Utf → ByteOrder → Bytes → Bytes → Result Bytes
unfolding read_words
decoded_words u order b rest = do
  words ← read_words order (length b / 2 - 1) rest
  ok (u.to_utf8 words)

pub decode_rest : Utf → Bytes → Bytes → Encoding → Result Bytes
unfolding decoded_words
decode_rest u b rest utf16_little_endian = decoded_words u little_endian b rest
decode_rest u b rest utf16_big_endian = decoded_words u big_endian b rest
decode_rest u b rest _ = ok rest

unfoldable pub decode : Utf → Bytes → Result Bytes
unfolding decode_rest
decode u b = let (rest, enc) = u.skip b in decode_rest u b rest enc
