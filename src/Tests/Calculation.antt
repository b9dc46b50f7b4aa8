-- ===== src/Tests/Calculation.antt =====
-- The calculator on natural numbers.
use atlas_the_agent.Base.{
  ℕ, ◌+◌, ◌*◌, ◌/◌, ◌≡◌, ◌⊎◌, refl, false, [], ◌∷◌, Text, codes, eqb, if◌then◌else◌, ◌==◌,
}
use atlas_the_agent.Core.Json.{negsuc, pos}
use atlas_the_agent.Tools.Registry.{success}
use atlas_the_agent.Tools.Calculator.{
  format, eval, conclude, evaluate, BinOp, add, mult, floor_div, Node, constant, bin_op, name, call,
  unsupported, nil, cons, int, Evaluated, value, tool_error, zero_division, raised, tree, Numbers,
  calculate,
}
use atlas_the_agent.Tools.Calculator.Checked.{IsArithmetic, calculate-IsArithmetic}
use atlas_the_agent.Tests.Fixtures.{python, digit}

abbrev binary : BinOp → ℕ → ℕ → Evaluated ℕ
binary add a b = value (a + b)
binary mult a b = value (a * b)
binary floor_div a b = if b == 0 then zero_division else value (a / b)
binary _ a b = raised (codes "no")

-- `1 + abs(2 * 3)`, `1 // 0` and `__import__("os").x`
abbrev sum_of_product : Node
sum_of_product = bin_op add (constant (int (pos 1))) (
    call (name (codes "abs"))
      (cons (bin_op mult (constant (int (pos 2))) (constant (int (pos 3)))) nil) false)

abbrev division : Node
division = bin_op floor_div (constant (int (pos 1))) (constant (int (pos 0)))

abbrev parsed : Text → Node
parsed s =
    if eqb s (codes "sum")
    then sum_of_product
    else (if eqb s (codes "division") then division else unsupported (codes "Attribute"))

abbrev numbers : Numbers ℕ
numbers = record {
  parse = λ s. tree (parsed s);
  of_int = λ z. elim z [ pos n ↦ n | negsuc n ↦ 0 ];
  of_float = λ x. 0;
  binary = binary;
  unary = λ op a. value a;
  call_function = λ f vs. elim vs [ [] ↦ raised (codes "no") | v ∷ rest ↦ value v ];
  constant_of = λ n. 3;
  is_whole_float = λ v. false;
  int_text = λ v. value (digit v);
  repr_of = λ v. value (digit v);
}

calculate_sum : calculate python numbers (codes "sum") ≡ value (success (digit 7))
unfolding calculate evaluate conclude eval format
calculate_sum = refl

calculate_division :
    calculate python numbers (codes "division") ≡ tool_error (codes "Division by zero.")
unfolding calculate evaluate conclude eval
calculate_division = refl

calculate-IsArithmetic_example :
    IsArithmetic (unsupported (codes "Attribute"))
    ⊎ ((m : Text) × (calculate python numbers (codes "x.y") ≡ tool_error m))
calculate-IsArithmetic_example =
    calculate-IsArithmetic python numbers (codes "x.y") (unsupported (codes "Attribute")) refl
