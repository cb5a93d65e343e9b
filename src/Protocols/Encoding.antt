-- ===== src/Protocols/Encoding.antt =====
-- `encode_value` of backend/app/protocols/modbus_tcp.py: a value as 16-bit words.
pub mod Widths
use ghost_meter.Prelude.{
  ℕ, zero, suc, ◌+◌, ◌-◌, ◌*◌, ◌/◌, ◌%◌, ◌^◌, String, Bool, List, [], ◌∷◌, map, reverse, ltb, ◌==◌,
  string_eq, if◌then◌else◌,
}
use ghost_meter.Prelude.Int.{ℤ, pos, negsuc}
use ghost_meter.Errors.{Result, ok, err, struct_error, value_error, ◌>>=◌}
use ghost_meter.Floats.{Floats}

-- `struct.pack` of a signed and of an unsigned number of `w` bits, as the number that the bytes
-- spell.
unfoldable pub pack_signed : ℕ → ℤ → Result ℕ
pack_signed w (pos n) = if ltb n (2 ^ (w - 1)) then ok n else err struct_error
pack_signed w (negsuc n) = if ltb n (2 ^ (w - 1)) then ok (2 ^ w - 1 - n) else err struct_error

unfoldable pub pack_unsigned : ℕ → ℤ → Result ℕ
pack_unsigned w (pos n) = if ltb n (2 ^ w) then ok n else err struct_error
pack_unsigned w (negsuc n) = err struct_error

-- `z & 0xFFFF`
unfoldable pub mask16 : ℤ → ℕ
mask16 (pos n) = n % 65536
mask16 (negsuc n) = 65535 - n % 65536

-- The big-endian bytes of a number, `k` of them.
unfoldable pub bytes : ℕ → ℕ → List ℕ
bytes zero n = []
bytes (suc k) n = (n / 256 ^ k % 256) ∷ bytes k n

-- `struct.unpack(">H", raw[i : i + 2])` for each even `i`; the length of `raw` is even.
unfoldable pub split_words : List ℕ → List ℕ
split_words [] = []
split_words (b ∷ []) = []
split_words (b ∷ (c ∷ raw)) = (b * 256 + c) ∷ split_words raw

-- `struct.unpack("<H", struct.pack(">H", w))`
unfoldable pub swap_bytes : ℕ → ℕ
swap_bytes w = w % 256 * 256 + w / 256

unfoldable pub arrange : String → List ℕ → Result (List ℕ)
unfolding swap_bytes
arrange byte_order words =
    if byte_order == "big_endian"
    then ok words
    else if byte_order == "little_endian"
    then ok (reverse (map swap_bytes words))
    else if byte_order == "big_endian_word_swap"
    then ok (map swap_bytes words)
    else if byte_order == "little_endian_word_swap"
    then ok (reverse words)
    else err value_error

-- The number's bytes, split into words and put in order.
unfoldable pub ordered : ℕ → String → Result ℕ → Result (List ℕ)
unfolding bytes split_words arrange
ordered k byte_order (ok n) = arrange byte_order (split_words (bytes k n))
ordered k byte_order (err e) = err e

abbrev single : Result ℕ → Result (List ℕ)
single (ok n) = ok (n ∷ [])
single (err e) = err e

module _ {R : Type 0} ⦃F : Floats R⦄ where
  -- 16-bit values are returned before the byte order is looked at.
  unfoldable pub encode_value : R → String → String → Result (List ℕ)
  unfolding ordered pack_signed pack_unsigned mask16
  encode_value value data_type byte_order =
      if data_type == "int16"
      then single (do z ← F.to_int value; pack_signed 16 z)
      else if data_type == "uint16"
      then single (do z ← F.to_int value; ok (mask16 z))
      else if data_type == "int32"
      then ordered 4 byte_order (do z ← F.to_int value; pack_signed 32 z)
      else if data_type == "uint32"
      then ordered 4 byte_order (do z ← F.to_int value; pack_unsigned 32 z)
      else if data_type == "float32"
      then ordered 4 byte_order (F.single_bits value)
      else if data_type == "float64"
      then ordered 8 byte_order (ok (F.double_bits value))
      else err value_error
