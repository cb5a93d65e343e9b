-- ===== src/Simulation/Expressions.antt =====
-- backend/app/simulation/expression_parser.py: arithmetic over the registers of a device. What it
-- calls of Python's `re` and `ast` is the record Python.
pub mod Meaning
use ghost_meter.Prelude.{String, Bool, Option, none, some, ◌||◌, ◌==◌, string_eq, if◌then◌else◌}
use ghost_meter.Dict.{Dict, get}
use ghost_meter.Errors.{Result, ok, err, expression_error, overflow_error, raise_if, ◌>>=◌, ◌>>◌}
use ghost_meter.Floats.{Floats, Value, number, integer, text, flag, null, other, to_float}

pub data UnaryOperator : Type 0 where
  u_add u_sub : UnaryOperator
  other_unary : String → UnaryOperator

pub data Operator : Type 0 where
  add sub mult div : Operator
  other_operator : String → Operator

-- ast.AST; `other_node` is any node of another type, by its name.
pub data Node (R : Type 0) : Type 0 where
  constant : Value R → Node R
  unary_op : UnaryOperator → Node R → Node R
  bin_op : Node R → Operator → Node R → Node R
  other_node : String → Node R

-- `_VAR_PATTERN.sub`, `str.strip`, and `ast.parse`, `none` where it raises SyntaxError
pub record Python (R : Type 0) : Type 0 where
  pub replace : (String → String) → String → String
  pub strip : String → String
  pub str : R → String
  pub parse : String → Option (Node R)

module _ {R : Type 0} ⦃F : Floats R⦄ where
  abbrev pub zero_float : R
  zero_float = F.literal 0 1

  -- A division by zero gives zero.
  unfoldable pub divide : R → R → R
  divide x y = if F.eq y zero_float then zero_float else F.div x y

  evaluate_constant : Value R → Result R
  evaluate_constant (number x) = ok x
  evaluate_constant (integer n) = to_float (integer n)
  evaluate_constant (flag b) = to_float (flag b)
  evaluate_constant (text s) = err expression_error
  evaluate_constant null = err expression_error
  evaluate_constant other = err expression_error

  binary : Operator → R → R → Result R
  unfolding divide
  binary add x y = ok (F.add x y)
  binary sub x y = ok (F.sub x y)
  binary mult x y = ok (F.mul x y)
  binary div x y = ok (divide x y)
  binary (other_operator name) x y = err expression_error

  -- `_safe_ast_eval`
  unfoldable pub safe_ast_eval : Node R → Result R
  unfolding evaluate_constant binary
  safe_ast_eval (constant v) = evaluate_constant v
  safe_ast_eval (unary_op u_add n) = safe_ast_eval n
  safe_ast_eval (unary_op u_sub n) = do x ← safe_ast_eval n; ok (F.neg x)
  safe_ast_eval (unary_op (other_unary name) n) = err expression_error
  safe_ast_eval (bin_op left op right) = do
    x ← safe_ast_eval left
    y ← safe_ast_eval right
    binary op x y
  safe_ast_eval (other_node name) = err expression_error

  parsed : Option (Node R) → Result (Node R)
  parsed none = err expression_error
  parsed (some tree) = ok tree

module _ {R : Type 0} ⦃F : Floats R⦄ (python : Python R) where
  text_of : Option R → String
  text_of none = "0.0"
  text_of (some value) = python.str value

  -- `_replace_var`
  replace_var : Dict String R → String → String
  unfolding text_of
  replace_var variables name = text_of (get variables name)

  unfoldable pub parse_and_evaluate : String → Dict String R → Result R
  unfolding replace_var parsed
  parse_and_evaluate expression variables = do
    raise_if (expression == "" || python.strip expression == "") expression_error
    tree ← parsed (python.parse (python.replace (replace_var variables) expression))
    safe_ast_eval tree
