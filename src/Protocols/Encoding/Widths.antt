-- ===== src/Protocols/Encoding/Widths.antt =====
-- The widths that `encode_value` writes, and the numbers that a client reads back.
use ghost_meter.Prelude.{
  ℕ, ◌+◌, ◌-◌, ◌*◌, ◌/◌, ◌%◌, ◌^◌, ◌<◌, ◌≡◌, ◌↔◌, refl, ap, String, true, false, List, [], ◌∷◌,
  arith, All, ltb, string_eq, length, if◌then◌else◌,
}
use ghost_meter.Prelude.Int.{ℤ, pos, negsuc}
use ghost_meter.Errors.{Result, struct_error, ok, err}
use ghost_meter.Floats.{Floats}
use ghost_meter.Protocols.Encoding.{
  swap_bytes, pack_signed, single, mask16, bytes, split_words, arrange, ordered, encode_value,
}

abbrev pub AreWords : List ℕ → Type 0
AreWords = All (λ w. w < 65536)

-- The bytes of a response: each word high byte first.
pub wire : List ℕ → List ℕ
wire [] = []
wire (w ∷ ws) = (w / 256) ∷ ((w % 256) ∷ wire ws)

pub high_first : ℕ → List ℕ → ℕ
high_first acc [] = acc
high_first acc (b ∷ bs) = high_first (acc * 256 + b) bs

pub low_first : List ℕ → ℕ
low_first [] = 0
low_first (b ∷ bs) = b + 256 * low_first bs

pub swap_pairs : List ℕ → List ℕ
swap_pairs [] = []
swap_pairs (b ∷ []) = b ∷ []
swap_pairs (b ∷ (c ∷ bs)) = c ∷ (b ∷ swap_pairs bs)

-- The four byte orders of a register definition, as a client reads the bytes A B C D.
pub data ByteOrder : Type 0 where
  abcd dcba badc cdab : ByteOrder

abbrev pub order_name : ByteOrder → String
order_name abcd = "big_endian"
order_name dcba = "little_endian"
order_name badc = "big_endian_word_swap"
order_name cdab = "little_endian_word_swap"

-- The number that a client reads from the words of a response.
pub client_reads : ByteOrder → List ℕ → ℕ
unfolding wire high_first low_first swap_pairs
client_reads abcd ws = high_first 0 (wire ws)
client_reads dcba ws = low_first (wire ws)
client_reads badc ws = high_first 0 (swap_pairs (wire ws))
client_reads cdab ws = low_first (swap_pairs (wire ws))

-- Two's complement.
pub signed : ℕ → ℕ → ℤ
signed w n = if ltb n (2 ^ (w - 1)) then pos n else negsuc (2 ^ w - 1 - n)

-- A result is `k` words, from which a client reads `n`.
abbrev pub ReadsBack : ByteOrder → ℕ → Result (List ℕ) → ℕ → Type 0
ReadsBack order k result n =
    (ws : List ℕ) × (result ≡ ok ws) × (client_reads order ws ≡ n) × AreWords ws × (length ws ≡ k)

ordered_8 :
    (order : ByteOrder) (n : ℕ)
    → n < 2 ^ 64
    → ReadsBack order 4 (ordered 8 (order_name order) (ok n)) n
unfolding ordered bytes split_words arrange swap_bytes client_reads
ordered_8 abcd n h =
    (_, refl, omega arith, (omega arith, (omega arith, (omega arith, (omega arith, tt)))), refl)
ordered_8 dcba n h =
    (_, refl, omega arith, (omega arith, (omega arith, (omega arith, (omega arith, tt)))), refl)
ordered_8 badc n h =
    (_, refl, omega arith, (omega arith, (omega arith, (omega arith, (omega arith, tt)))), refl)
ordered_8 cdab n h =
    (_, refl, omega arith, (omega arith, (omega arith, (omega arith, (omega arith, tt)))), refl)

ordered_4 :
    (order : ByteOrder) (n : ℕ)
    → n < 2 ^ 32
    → ReadsBack order 2 (ordered 4 (order_name order) (ok n)) n
unfolding ordered bytes split_words arrange swap_bytes client_reads
ordered_4 abcd n h = (_, refl, omega arith, (omega arith, (omega arith, tt)), refl)
ordered_4 dcba n h = (_, refl, omega arith, (omega arith, (omega arith, tt)), refl)
ordered_4 badc n h = (_, refl, omega arith, (omega arith, (omega arith, tt)), refl)
ordered_4 cdab n h = (_, refl, omega arith, (omega arith, (omega arith, tt)), refl)

-- The signed numbers of `w` bits.
abbrev pub Fits : ℕ → ℤ → Type 0
Fits w (pos n) = n < 2 ^ (w - 1)
Fits w (negsuc n) = n < 2 ^ (w - 1)

signed-top : (m : ℕ) → m < 2 ^ 31 → signed 32 (2 ^ 32 - 1 - m) ≡ negsuc m
unfolding signed
signed-top m h =
    let high : ltb (2 ^ 32 - 1 - m) (2 ^ 31) ≡ false = ground arith in
    let back : 2 ^ 32 - 1 - (2 ^ 32 - 1 - m) ≡ m = omega arith in rw high (ap negsuc back)

pack_signed_32 :
    (z : ℤ) → Fits 32 z → (n : ℕ) × (pack_signed 32 z ≡ ok n) × (signed 32 n ≡ z) × (n < 2 ^ 32)
unfolding pack_signed signed
pack_signed_32 (pos m) h = (m, ground arith, ground arith, omega arith)
pack_signed_32 (negsuc m) h = (2 ^ 32 - 1 - m, ground arith, signed-top m h, omega arith)

-- The number modulo 65536; `negsuc n` is `-(n + 1)`.
abbrev pub IsResidue : ℤ → ℕ → Type 0
IsResidue (pos n) w = (w < 65536) × (w ≡ n % 65536)
IsResidue (negsuc n) w = (w < 65536) × ((w + n + 1) % 65536 ≡ 0)

mask16-IsResidue : (z : ℤ) → IsResidue z (mask16 z)
unfolding mask16
mask16-IsResidue (pos n) = (omega arith, refl)
mask16-IsResidue (negsuc n) = (omega arith, omega arith)

pack_signed_16-sent : (z : ℤ) → Fits 16 z → (ws : List ℕ) × (single (pack_signed 16 z) ≡ ok ws)
unfolding pack_signed
pack_signed_16-sent (pos m) h = let low : ltb m (2 ^ 15) ≡ true = ground arith in (m ∷ [], rw low)
pack_signed_16-sent (negsuc m) h =
    let low : ltb m (2 ^ 15) ≡ true = ground arith in ((2 ^ 16 - 1 - m) ∷ [], rw low)

pack_signed_16-raises : (z : ℤ) → ¬ Fits 16 z → single (pack_signed 16 z) ≡ err struct_error
unfolding pack_signed
pack_signed_16-raises (pos m) far = let high : ltb m (2 ^ 15) ≡ false = ground arith in rw high
pack_signed_16-raises (negsuc m) far = let high : ltb m (2 ^ 15) ≡ false = ground arith in rw high

pack_signed_32-raises : (z : ℤ) → ¬ Fits 32 z → pack_signed 32 z ≡ err struct_error
unfolding pack_signed
pack_signed_32-raises (pos m) far = ground arith
pack_signed_32-raises (negsuc m) far = ground arith

ordered_err : (byte_order : String) → ordered 4 byte_order (err struct_error) ≡ err struct_error
unfolding ordered
ordered_err byte_order = refl

-- A result that is sent in one case and raised in the other.
raises_iff :
    (P : Type 0) (r : Result (List ℕ))
    → (P → (ws : List ℕ) × (r ≡ ok ws))
    → (¬ P → r ≡ err struct_error)
    → (r ≡ err struct_error) ↔ ¬ P
raises_iff P r sent raised = (λ e p. let (ws, e') = sent p in cc, raised)

module _ {R : Type 0} ⦃F : Floats R⦄ where
  -- An int32 register whose value truncates to an integer of 32 bits is sent as two words, from
  -- which a client that is set to the register's byte order reads that integer in two's complement.
  pub encode_value-int32 :
      (value : R) (z : ℤ) (order : ByteOrder)
      → F.to_int value ≡ ok z
      → Fits 32 z
      → (n : ℕ) × ReadsBack order 2 (encode_value value "int32" (order_name order)) n
        × (signed 32 n ≡ z)
  unfolding encode_value
  encode_value-int32 value z order e fits =
      let (n, packed, read, lt) = pack_signed_32 z fits in
      (n, rw (e, packed) (ordered_4 order n lt), read)

  -- A float32 register whose value packs to 32 bits is sent as two words, and a float64 register
  -- as four, from which a client that is set to the register's byte order reads the same bits.
  pub encode_value-float :
      (value : R) (n : ℕ) (order : ByteOrder)
      → F.single_bits value ≡ ok n
      → n < 2 ^ 32
      → F.double_bits value < 2 ^ 64
      → ReadsBack order 2 (encode_value value "float32" (order_name order)) n
        × ReadsBack order 4 (encode_value value "float64" (order_name order)) (F.double_bits value)
  unfolding encode_value
  encode_value-float value n order e lt lt' =
      (rw e (ordered_4 order n lt), ordered_8 order (F.double_bits value) lt')

  -- An integer raises as an int16 exactly if it does not fit in 16 bits, and as an int32 exactly
  -- if it does not fit in 32, in each byte order; as a uint16 it is sent as one word, modulo 65536.
  pub encode_value-raises_iff :
      (value : R) (z : ℤ) (order : ByteOrder)
      → F.to_int value ≡ ok z
      → ((encode_value value "int16" (order_name order) ≡ err struct_error) ↔ ¬ Fits 16 z)
        × ((encode_value value "int32" (order_name order) ≡ err struct_error) ↔ ¬ Fits 32 z)
        × ((w : ℕ) × (encode_value value "uint16" (order_name order) ≡ ok (w ∷ [])) × IsResidue z w)
  unfolding encode_value
  encode_value-raises_iff value z order e = (
    rw e (
        raises_iff (Fits 16 z) (single (pack_signed 16 z)) (pack_signed_16-sent z)
          (pack_signed_16-raises z)),
    rw e (
        raises_iff (Fits 32 z) (ordered 4 (order_name order) (pack_signed 32 z))
          (λ fits.
            let (n, packed, _, lt) = pack_signed_32 z fits in
            let (ws, sent, _, _, _) = ordered_4 order n lt in (ws, rw packed sent))
          (λ far. rw (pack_signed_32-raises z far) (ordered_err (order_name order)))),
    (mask16 z, rw e, mask16-IsResidue z),
  )
