-- ===== src/Tests/Encoding.antt =====
-- Values as the words of a Modbus response.
use ghost_meter.Prelude.{ℕ, ◌≡◌, ◌↔◌, refl, [], ◌∷◌, arith, string_eq, nat_eq}
use ghost_meter.Prelude.Int.{pos, negsuc}
use ghost_meter.Errors.{ok, err, struct_error}
use ghost_meter.Floats.Exact.{exact}
use ghost_meter.Protocols.Encoding.{encode_value}
use ghost_meter.Protocols.Encoding.Widths.{
  Fits, ReadsBack, abcd, dcba, order_name, signed, encode_value-int32, encode_value-float,
  IsResidue, encode_value-raises_iff,
}

-- `-2` with its words swapped.
minus_two_swapped :
    encode_value (negsuc 1) "int32" "big_endian_word_swap" ≡ ok (65535 ∷ (65279 ∷ []))
unfolding encode_value
minus_two_swapped = refl

encode_value-int32_example :
    (n : ℕ) × ReadsBack dcba 2 (encode_value (negsuc 1) "int32" (order_name dcba)) n
    × (signed 32 n ≡ negsuc 1)
encode_value-int32_example = encode_value-int32 (negsuc 1) (negsuc 1) dcba refl (omega arith)

encode_value-float_example :
    ReadsBack abcd 2 (encode_value (pos 7) "float32" (order_name abcd)) 7
    × ReadsBack abcd 4 (encode_value (pos 7) "float64" (order_name abcd)) 7
encode_value-float_example = encode_value-float (pos 7) 7 abcd refl (omega arith) (omega arith)

encode_value-raises_iff_example :
    ((encode_value (negsuc 32768) "int16" (order_name abcd) ≡ err struct_error)
      ↔ ¬ Fits 16 (negsuc 32768))
    × ((encode_value (negsuc 32768) "int32" (order_name abcd) ≡ err struct_error)
        ↔ ¬ Fits 32 (negsuc 32768))
    × ((w : ℕ) × (encode_value (negsuc 32768) "uint16" (order_name abcd) ≡ ok (w ∷ []))
        × IsResidue (negsuc 32768) w)
encode_value-raises_iff_example = encode_value-raises_iff (negsuc 32768) (negsuc 32768) abcd refl
