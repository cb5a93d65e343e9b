-- ===== src/Floats.antt =====
-- Python's `float` as an interface: its operations are the language's, and what a theorem needs
-- to know of them is a hypothesis. Also the values of a JSON object, and `float(value)`.
pub mod Exact
use ghost_meter.Prelude.{
  ℕ, ◌<◌, ◌≤◌, ◌^◌, ◌≡◌, String, Bool, true, false, Option, none, some, if◌then◌else◌,
}
use ghost_meter.Prelude.Int.{ℤ, pos}
use ghost_meter.Errors.{Error, type_error, value_error, overflow_error, Result, ok, err}

pub record Floats (R : Type 0) : Type 0 where
  pub add : R → R → R
  pub sub : R → R → R
  pub mul : R → R → R
  pub div : R → R → R
  pub neg : R → R
  pub abs : R → R
  pub lt : R → R → Bool
  pub le : R → R → Bool
  pub eq : R → R → Bool
  -- `n <= x` and `x < n` at an int `n`, which Python compares exactly
  pub int_le : ℕ → R → Bool
  pub lt_int : R → ℕ → Bool
  pub is_finite : R → Bool
  -- `int(x)`, which raises at what is not finite
  pub to_int : R → Result ℤ
  -- the bit patterns of `struct.pack(">f", x)`, which may raise, and of `struct.pack(">d", x)`
  pub single_bits : R → Result ℕ
  pub double_bits : R → ℕ
  -- `float(n)`, `none` where it raises OverflowError
  pub of_int : ℤ → Option R
  -- the literal that is nearest to a fraction
  pub literal : ℕ → ℕ → R
  -- `float(s)`, `none` where it raises ValueError
  pub parse : String → Option R

-- What orders of finite floats satisfy; the laws of `==` and of NaN are not needed.
pub record IsOrdered {R : Type 0} (F : Floats R) : Type 0 where
  pub le_of_lt : (x y : R) → F.lt x y ≡ true → F.le x y ≡ true
  pub le_of_not_lt :
      (x y : R) → F.is_finite x ≡ true → F.is_finite y ≡ true → F.lt x y ≡ false → F.le y x ≡ true
  pub le_refl : (x : R) → F.is_finite x ≡ true → F.le x x ≡ true
  pub literal_finite : (n d : ℕ) → n < 2 ^ 53 → 0 < d → F.is_finite (F.literal n d) ≡ true
  pub literal_mono : (n m : ℕ) → n ≤ m → m < 2 ^ 53 → F.le (F.literal n 1) (F.literal m 1) ≡ true

pub data Value (R : Type 0) : Type 0 where
  number : R → Value R
  integer : ℤ → Value R
  text : String → Value R
  flag : Bool → Value R
  null other : Value R

abbrev or_raise {ℓ} : {A : Type ℓ} → Option A → Error → Result A
or_raise none e = err e
or_raise (some a) e = ok a

module _ {R : Type 0} ⦃F : Floats R⦄ where
  -- `float(value)`
  unfoldable pub to_float : Value R → Result R
  to_float (number x) = ok x
  to_float (integer n) = or_raise (F.of_int n) overflow_error
  to_float (text s) = or_raise (F.parse s) value_error
  to_float (flag b) = ok (F.literal (if b then 1 else 0) 1)
  to_float null = err type_error
  to_float other = err type_error

  -- `max(x, y)` and `min(x, y)`: the first one, unless the second is strictly beyond it
  abbrev pub py_max : R → R → R
  py_max x y = if F.lt x y then y else x

  abbrev pub py_min : R → R → R
  py_min x y = if F.lt y x then y else x
