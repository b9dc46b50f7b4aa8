-- ===== src/Tools/Calculator.antt =====
-- backend/atlas/tools/calculator.py: the walk over the tree that `ast.parse` returns. The numbers, and
-- what the operators and functions of Python do with them, are parameters.
pub mod Checked
use atlas_the_agent.Base.{
  ℕ, Bool, true, false, any, Option, none, some, List, [], ◌∷◌, ◌++◌, Text, codes, eqb,
  if◌then◌else◌,
}
use atlas_the_agent.Core.Json.{ℤ, Float}
use atlas_the_agent.Core.Python.{Python}
use atlas_the_agent.Tools.Registry.{ToolResult, success}

-- The operators that `_BIN_OPS` and `_UNARY_OPS` list; any other one, by the name of its class.
pub data BinOp : Type 0 where
  add sub mult div floor_div modulo pow : BinOp
  other_binary : Text → BinOp

pub data UnaryOp : Type 0 where
  u_add u_sub : UnaryOp
  other_unary : Text → UnaryOp

-- `ast.Constant.value`
pub data Literal : Type 0 where
  int : ℤ → Literal
  float : Float → Literal
  not_a_number : Literal

-- The nodes of an expression; `unsupported` is any other class, by its name.
mutual
  pub data Node : Type 0 where
    constant : Literal → Node
    bin_op : BinOp → Node → Node → Node
    unary_op : UnaryOp → Node → Node
    name : Text → Node
    -- a function, the arguments, and whether there are keywords
    call : Node → Nodes → Bool → Node
    unsupported : Text → Node

  pub data Nodes : Type 0 where
    nil : Nodes
    cons : Node → Nodes → Nodes

-- How an evaluation ends: with a value, `ToolError`, `ZeroDivisionError`, or another exception.
pub data Evaluated {ℓ} (A : Type ℓ) : Type ℓ where
  value : A → Evaluated A
  tool_error : Text → Evaluated A
  zero_division : Evaluated A
  raised : Text → Evaluated A

infixl 5 ◌>>=◌
abbrev pub ◌>>=◌ {ℓ κ} : {A : Type ℓ} {B : Type κ} → Evaluated A → (A → Evaluated B) → Evaluated B
value a >>= f = f a
tool_error m >>= f = tool_error m
zero_division >>= f = zero_division
raised m >>= f = raised m

-- How `ast.parse(expression, mode="eval")` ends.
pub data Parsed : Type 0 where
  tree : Node → Parsed
  syntax_error : Text → Parsed
  parse_raised : Text → Parsed

-- Python's numbers.
pub record Numbers (V : Type 0) : Type 0 where
  pub parse : Text → Parsed
  pub of_int : ℤ → V
  pub of_float : Float → V
  pub binary : BinOp → V → V → Evaluated V
  pub unary : UnaryOp → V → Evaluated V
  pub call_function : Text → List V → Evaluated V
  -- `math.pi` and `math.e`, by their names here
  pub constant_of : Text → V
  -- `isinstance(value, float) and value.is_integer()`, `str(int(value))` and `repr(value)`
  pub is_whole_float : V → Bool
  pub int_text : V → Evaluated Text
  pub repr_of : V → Evaluated Text

-- The keys of `_FUNCS` and of `_CONSTS`
abbrev pub functions : List Text
functions =
    codes "abs"
    ∷ codes "round"
    ∷ codes "sqrt"
    ∷ codes "floor"
    ∷ codes "ceil"
    ∷ codes "min"
    ∷ codes "max"
    ∷ codes "log"
    ∷ codes "log10"
    ∷ codes "exp"
    ∷ []

abbrev pub constants : List Text
constants = codes "pi" ∷ codes "e" ∷ []

abbrev pub is_one_of : List Text → Text → Bool
is_one_of ts t = any (λ u. eqb u t) ts

module _ {V : Type 0} (py : Python) (num : Numbers V) where
  abbrev pub not_allowed : Text → Evaluated V
  not_allowed n = tool_error (codes "Operator not allowed: " ++ (n ++ codes "."))

  -- The operator is looked up before its operands are evaluated.
  unfoldable pub apply_binary : BinOp → Evaluated V → Evaluated V → Evaluated V
  apply_binary (other_binary n) a b = not_allowed n
  apply_binary op a b = a >>= λ x. b >>= λ y. num.binary op x y

  unfoldable pub apply_unary : UnaryOp → Evaluated V → Evaluated V
  apply_unary (other_unary n) a =
      tool_error (codes "Unary operator not allowed: " ++ (n ++ codes "."))
  apply_unary op a = a >>= λ x. num.unary op x

  unfoldable pub literal : Literal → Evaluated V
  literal (int z) = value (num.of_int z)
  literal (float x) = value (num.of_float x)
  literal not_a_number = tool_error (codes "Only numeric literals are allowed.")

  -- `_eval_call`, with what its arguments evaluate to
  unfoldable pub eval_call : Node → Bool → Evaluated (List V) → Evaluated V
  eval_call (name f) keywords args =
      if is_one_of functions f
      then (if keywords
          then tool_error (codes "Keyword arguments are not supported.")
          else (args >>= λ vs. num.call_function f vs))
      else tool_error (codes "Only whitelisted math functions may be called.")
  eval_call _ keywords args = tool_error (codes "Only whitelisted math functions may be called.")

  unfoldable pub eval_name : Text → Evaluated V
  eval_name n =
      if is_one_of constants n
      then value (num.constant_of n)
      else tool_error (codes "Unknown name: " ++ (py.repr n ++ codes "."))

  -- `_eval`
  unfoldable mutual
    unfolding apply_binary apply_unary literal eval_call eval_name

    pub eval : Node → Evaluated V
    eval (constant c) = literal c
    eval (bin_op op a b) = apply_binary op (eval a) (eval b)
    eval (unary_op op a) = apply_unary op (eval a)
    eval (name n) = eval_name n
    eval (call f args keywords) = eval_call f keywords (eval_all args)
    eval (unsupported class) = tool_error (codes "Unsupported syntax: " ++ (class ++ codes "."))

    pub eval_all : Nodes → Evaluated (List V)
    eval_all nil = value []
    eval_all (cons a args) = eval a >>= λ v. (eval_all args >>= λ vs. value (v ∷ vs))

  -- The body of the `try`
  unfoldable pub evaluate : Parsed → Evaluated V
  unfolding eval
  evaluate (tree t) = eval t
  evaluate (syntax_error m) = tool_error (codes "Not a valid expression: " ++ m)
  evaluate (parse_raised m) = raised m

  -- `_format`
  unfoldable pub format : V → Evaluated Text
  format v = if num.is_whole_float v then num.int_text v else num.repr_of v

  -- The `except` clauses; what is returned is formatted behind the `try`.
  unfoldable pub conclude : Evaluated V → Evaluated ToolResult
  unfolding format success
  conclude (value v) = format v >>= λ s. value (success s)
  conclude (tool_error m) = tool_error m
  conclude zero_division = tool_error (codes "Division by zero.")
  conclude (raised m) = tool_error (codes "Could not evaluate expression: " ++ m)

  -- `CalculatorTool.run`
  unfoldable pub calculate : Text → Evaluated ToolResult
  unfolding evaluate conclude
  calculate expression = conclude (evaluate (num.parse expression))
