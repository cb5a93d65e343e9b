-- ===== src/Floats/Exact.antt =====
-- The interface met by whole numbers: `float(n)` overflows where a double would, and text is
-- never a number. It runs the model on concrete inputs and shows that the laws can hold.
use ghost_meter.Prelude.{◌^◌, ◌/◌, ◌%◌, refl, true, none, some, arith, ltb, nat_beq, if◌then◌else◌}
use ghost_meter.Prelude.Int.{ℤ, pos, ◌+ℤ◌, ◌-ℤ◌, ◌*ℤ◌, quot, ltb_ℤ, leb_ℤ, magnitude}
use ghost_meter.Errors.{ok}
use ghost_meter.Floats.{Floats, IsOrdered}

instance abbrev pub exact : Floats ℤ
exact = record {
  add = ◌+ℤ◌;
  sub = ◌-ℤ◌;
  mul = ◌*ℤ◌;
  div = quot;
  neg = λ a. pos 0 -ℤ a;
  abs = λ a. pos (magnitude a);
  lt = ltb_ℤ;
  le = leb_ℤ;
  eq = λ a b. nat_beq (magnitude (a -ℤ b)) 0;
  int_le = λ n x. leb_ℤ (pos n) x;
  lt_int = λ x n. ltb_ℤ x (pos n);
  is_finite = λ a. true;
  to_int = λ a. ok a;
  single_bits = λ a. ok (magnitude a % 2 ^ 32);
  double_bits = λ a. magnitude a % 2 ^ 64;
  of_int = λ n. if ltb (magnitude n) (2 ^ 1024) then some n else none;
  literal = λ n d. pos (n / d);
  parse = λ s. none;
}

pub exact-IsOrdered : IsOrdered exact
exact-IsOrdered = record {
  le_of_lt = λ x y h. ground arith;
  le_of_not_lt = λ x y _ _ h. ground arith;
  le_refl = λ x _. ground arith;
  literal_finite = λ n d _ _. refl;
  literal_mono = λ n m h _. ground arith;
}
