-- ===== src/Simulation/Expressions/Meaning.antt =====
-- The arithmetic that an accepted expression stands for, and why another one is refused.
use mathlib.Core.Path.{subst}
use ghost_meter.Prelude.{
  ◌≡◌, refl, ap, none, some, inl, inr, ◌↔◌, Option-cases, Bool, true, false, Bool-cases,
}
use ghost_meter.Prelude.Int.{ℤ}
use ghost_meter.Errors.{Result, ok, err, expression_error, overflow_error, ◌>>=◌}
use ghost_meter.Floats.{Floats, Value, number, integer, text, flag, null, other, to_float}
use ghost_meter.Simulation.Expressions.{
  UnaryOperator, u_add, u_sub, other_unary, Operator, add, sub, mult, div, other_operator, Node,
  constant, unary_op, bin_op, other_node, divide, evaluate_constant, binary, safe_ast_eval,
}

module _ {R : Type 0} ⦃F : Floats R⦄ where
  pub data Means : Node R → R → Type 0 where
    of_number : {x : R} → Means (constant (number x)) x
    of_integer : {n : ℤ} {x : R} → F.of_int n ≡ some x → Means (constant (integer n)) x
    of_true : Means (constant (flag true)) (F.literal 1 1)
    of_false : Means (constant (flag false)) (F.literal 0 1)
    plus : {n : Node R} {x : R} → Means n x → Means (unary_op u_add n) x
    minus : {n : Node R} {x : R} → Means n x → Means (unary_op u_sub n) (F.neg x)
    sum : {m n : Node R} {x y : R} → Means m x → Means n y → Means (bin_op m add n) (F.add x y)
    difference :
        {m n : Node R} {x y : R} → Means m x → Means n y → Means (bin_op m sub n) (F.sub x y)
    product : {m n : Node R} {x y : R} → Means m x → Means n y → Means (bin_op m mult n) (F.mul x y)
    quotient :
        {m n : Node R} {x y : R}
        → Means m x
        → Means n y
        → F.eq y (F.literal 0 1) ≡ false
        → Means (bin_op m div n) (F.div x y)
    by_zero :
        {m n : Node R} {x y : R}
        → Means m x
        → Means n y
        → F.eq y (F.literal 0 1) ≡ true
        → Means (bin_op m div n) (F.literal 0 1)

  Means-safe_ast_eval : {n : Node R} {x : R} → Means n x → safe_ast_eval n ≡ ok x
  unfolding safe_ast_eval to_float
  Means-safe_ast_eval of_number = refl
  Means-safe_ast_eval (of_integer e) = rw e refl
  Means-safe_ast_eval of_true = refl
  Means-safe_ast_eval of_false = refl
  Means-safe_ast_eval (plus m) = Means-safe_ast_eval m
  Means-safe_ast_eval (minus m) = rw (Means-safe_ast_eval m) refl
  Means-safe_ast_eval (sum m n) = rw (Means-safe_ast_eval m, Means-safe_ast_eval n) refl
  Means-safe_ast_eval (difference m n) = rw (Means-safe_ast_eval m, Means-safe_ast_eval n) refl
  Means-safe_ast_eval (product m n) = rw (Means-safe_ast_eval m, Means-safe_ast_eval n) refl
  Means-safe_ast_eval (quotient m n e) = rw (Means-safe_ast_eval m, Means-safe_ast_eval n, e) refl
  Means-safe_ast_eval (by_zero m n e) = rw (Means-safe_ast_eval m, Means-safe_ast_eval n, e) refl

  -- Numbers, signs and the four operators, and nothing else.
  pub data Arithmetic : Node R → Type 0 where
    numeral : {x : R} → Arithmetic (constant (number x))
    whole : {n : ℤ} → Arithmetic (constant (integer n))
    truth : {b : Bool} → Arithmetic (constant (flag b))
    signed_plus : {n : Node R} → Arithmetic n → Arithmetic (unary_op u_add n)
    signed_minus : {n : Node R} → Arithmetic n → Arithmetic (unary_op u_sub n)
    added : {m n : Node R} → Arithmetic m → Arithmetic n → Arithmetic (bin_op m add n)
    subtracted : {m n : Node R} → Arithmetic m → Arithmetic n → Arithmetic (bin_op m sub n)
    multiplied : {m n : Node R} → Arithmetic m → Arithmetic n → Arithmetic (bin_op m mult n)
    divided : {m n : Node R} → Arithmetic m → Arithmetic n → Arithmetic (bin_op m div n)

  -- An int beyond the range of a float stands in the expression.
  pub data HasHuge : Node R → Type 0 where
    huge_here : {n : ℤ} → F.of_int n ≡ none → HasHuge (constant (integer n))
    huge_under : {op : UnaryOperator} {n : Node R} → HasHuge n → HasHuge (unary_op op n)
    huge_left : {op : Operator} {m n : Node R} → HasHuge m → HasHuge (bin_op m op n)
    huge_right : {op : Operator} {m n : Node R} → HasHuge n → HasHuge (bin_op m op n)

  -- What the evaluation of an expression may give.
  pub data Evaluates (n : Node R) : Result R → Type 0 where
    meant : {x : R} → Means n x → Evaluates n (ok x)
    refused : ¬ Arithmetic n → Evaluates n (err expression_error)
    huge : HasHuge n → Evaluates n (err overflow_error)

  signed_operand : {n : Node R} {op : UnaryOperator} → Arithmetic (unary_op op n) → Arithmetic n
  signed_operand (signed_plus a) = a
  signed_operand (signed_minus a) = a

  left_operand : {m n : Node R} {op : Operator} → Arithmetic (bin_op m op n) → Arithmetic m
  left_operand (added a b) = a
  left_operand (subtracted a b) = a
  left_operand (multiplied a b) = a
  left_operand (divided a b) = a

  right_operand : {m n : Node R} {op : Operator} → Arithmetic (bin_op m op n) → Arithmetic n
  right_operand (added a b) = b
  right_operand (subtracted a b) = b
  right_operand (multiplied a b) = b
  right_operand (divided a b) = b

  integer-Evaluates : (n : ℤ) → Evaluates (constant (integer n)) (to_float (integer n))
  unfolding to_float
  integer-Evaluates n = elim (Option-cases (F.of_int n)) [
    | inl none_fits ↦ rw none_fits (huge (huge_here none_fits))
    | inr (x, fits) ↦ rw fits (meant (of_integer fits))
  ]

  constant-Evaluates : (v : Value R) → Evaluates (constant v) (evaluate_constant v)
  unfolding evaluate_constant to_float
  constant-Evaluates (number x) = meant of_number
  constant-Evaluates (integer n) = integer-Evaluates n
  constant-Evaluates (flag true) = meant of_true
  constant-Evaluates (flag false) = meant of_false
  constant-Evaluates (text s) = refused (λ a. elim a [ ])
  constant-Evaluates null = refused (λ a. elim a [ ])
  constant-Evaluates other = refused (λ a. elim a [ ])

  negate-Evaluates :
      {n : Node R} {r : Result R}
      → Evaluates n r
      → Evaluates (unary_op u_sub n) (do x ← r; ok (F.neg x))
  negate-Evaluates (meant m) = meant (minus m)
  negate-Evaluates (refused h) = refused (λ c. h (signed_operand c))
  negate-Evaluates (huge h) = huge (huge_under h)

  plus-Evaluates : {n : Node R} {r : Result R} → Evaluates n r → Evaluates (unary_op u_add n) r
  plus-Evaluates (meant m) = meant (plus m)
  plus-Evaluates (refused h) = refused (λ c. h (signed_operand c))
  plus-Evaluates (huge h) = huge (huge_under h)

  divide-Evaluates :
      {m n : Node R} {x y : R}
      → Means m x
      → Means n y
      → Evaluates (bin_op m div n) (ok (divide x y))
  unfolding divide
  divide-Evaluates {y = y} a b = elim (Bool-cases (F.eq y (F.literal 0 1))) [
    | inl is_zero ↦ rw is_zero (meant (by_zero a b is_zero))
    | inr not_zero ↦ rw not_zero (meant (quotient a b not_zero))
  ]

  operator-Evaluates :
      {m n : Node R} {x y : R} (op : Operator)
      → Means m x
      → Means n y
      → Evaluates (bin_op m op n) (binary op x y)
  unfolding binary
  operator-Evaluates add a b = meant (sum a b)
  operator-Evaluates sub a b = meant (difference a b)
  operator-Evaluates mult a b = meant (product a b)
  operator-Evaluates div a b = divide-Evaluates a b
  operator-Evaluates (other_operator name) a b = refused (λ h. elim h [ ])

  binary-Evaluates :
      {m n : Node R} {r s : Result R} (op : Operator)
      → Evaluates m r
      → Evaluates n s
      → Evaluates (bin_op m op n) (do x ← r; y ← s; binary op x y)
  binary-Evaluates op (meant a) (meant b) = operator-Evaluates op a b
  binary-Evaluates op (meant a) (refused h) = refused (λ c. h (right_operand c))
  binary-Evaluates op (meant a) (huge h) = huge (huge_right h)
  binary-Evaluates op (refused h) b = refused (λ c. h (left_operand c))
  binary-Evaluates op (huge h) b = huge (huge_left h)

  -- An expression evaluates to the number that it stands for, or fails with ExpressionError, and
  -- then it is not arithmetic, or with OverflowError, and then a huge int stands in it.
  pub safe_ast_eval-Evaluates : (n : Node R) → Evaluates n (safe_ast_eval n)
  unfolding safe_ast_eval
  safe_ast_eval-Evaluates (constant v) = constant-Evaluates v
  safe_ast_eval-Evaluates (unary_op u_add n) = plus-Evaluates (safe_ast_eval-Evaluates n)
  safe_ast_eval-Evaluates (unary_op u_sub n) = negate-Evaluates (safe_ast_eval-Evaluates n)
  safe_ast_eval-Evaluates (unary_op (other_unary name) n) = refused (λ h. elim h [ ])
  safe_ast_eval-Evaluates (bin_op m op n) =
      binary-Evaluates op (safe_ast_eval-Evaluates m) (safe_ast_eval-Evaluates n)
  safe_ast_eval-Evaluates (other_node name) = refused (λ h. elim h [ ])

  evaluated-Means : {n : Node R} {r : Result R} {x : R} → Evaluates n r → r ≡ ok x → Means n x
  evaluated-Means {n} (meant m) e =
      subst (Means n) (ap (λ r. elim r [ ok y ↦ y | err _ ↦ F.literal 0 1 ]) e) m
  evaluated-Means (refused h) e = cc
  evaluated-Means (huge h) e = cc

  -- The evaluation of an expression gives a number exactly if the expression stands for it, where
  -- a quotient by zero stands for zero, and a constant for its float.
  pub safe_ast_eval_iff_Means : (n : Node R) (x : R) → (safe_ast_eval n ≡ ok x) ↔ Means n x
  safe_ast_eval_iff_Means n x = (evaluated-Means (safe_ast_eval-Evaluates n), Means-safe_ast_eval)
