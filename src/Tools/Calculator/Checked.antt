-- ===== src/Tools/Calculator/Checked.antt =====
-- What the calculator refuses.
use atlas_the_agent.Base.{◌≡◌, refl, Bool, true, false, Bool-cases, ◌⊎◌, inl, inr, List, ◌∷◌, Text}
use atlas_the_agent.Core.Python.{Python}
use atlas_the_agent.Tools.Calculator.{
  BinOp, add, sub, mult, div, floor_div, modulo, pow, other_binary, UnaryOp, u_add, u_sub,
  other_unary, Literal, int, float, not_a_number, Node, constant, bin_op, unary_op, name, call,
  unsupported, Nodes, nil, cons, Evaluated, value, tool_error, zero_division, raised, ◌>>=◌, tree,
  Numbers, functions, constants, is_one_of, apply_binary, apply_unary, literal, eval_call,
  eval_name, eval, eval_all, evaluate, conclude, calculate,
}

abbrev IsListed : BinOp → Type 0
IsListed (other_binary n) = ⊥
IsListed _ = Unit

abbrev IsListedUnary : UnaryOp → Type 0
IsListedUnary (other_unary n) = ⊥
IsListedUnary _ = Unit

abbrev IsNumeric : Literal → Type 0
IsNumeric not_a_number = ⊥
IsNumeric _ = Unit

abbrev IsFunction : Node → Type 0
IsFunction (name f) = is_one_of functions f ≡ true
IsFunction _ = ⊥

-- An expression of numbers, the listed operators, the two constants, and calls of the listed functions
-- with positional arguments.
abbrev mutual
  pub IsArithmetic : Node → Type 0
  IsArithmetic (constant c) = IsNumeric c
  IsArithmetic (bin_op op a b) = IsListed op × (IsArithmetic a × IsArithmetic b)
  IsArithmetic (unary_op op a) = IsListedUnary op × IsArithmetic a
  IsArithmetic (name n) = is_one_of constants n ≡ true
  IsArithmetic (call f args keywords) = IsFunction f × ((keywords ≡ false) × AreArithmetic args)
  IsArithmetic (unsupported class) = ⊥

  pub AreArithmetic : Nodes → Type 0
  AreArithmetic nil = Unit
  AreArithmetic (cons a args) = IsArithmetic a × AreArithmetic args

abbrev IsValue : {A : Type 0} → Evaluated A → Type 0
IsValue (value a) = Unit
IsValue (tool_error m) = ⊥
IsValue zero_division = ⊥
IsValue (raised m) = ⊥

>>=-IsValue :
    {A B : Type 0} (m : Evaluated A) (f : A → Evaluated B)
    → IsValue (m >>= f)
    → (a : A) × (m ≡ value a) × IsValue (f a)
>>=-IsValue (value a) f h = (a, refl, h)
>>=-IsValue (tool_error m) f h = absurd h
>>=-IsValue zero_division f h = absurd h
>>=-IsValue (raised m) f h = absurd h

both_IsValue :
    {A B C : Type 0} (a : Evaluated A) (b : Evaluated B) (f : A → B → Evaluated C)
    → IsValue (a >>= λ x. b >>= λ y. f x y)
    → IsValue a × IsValue b
both_IsValue (value a) (value b) f h = (tt, tt)
both_IsValue (value a) (tool_error m) f h = absurd h
both_IsValue (value a) zero_division f h = absurd h
both_IsValue (value a) (raised m) f h = absurd h
both_IsValue (tool_error m) b f h = absurd h
both_IsValue zero_division b f h = absurd h
both_IsValue (raised m) b f h = absurd h

module _ {V : Type 0} (py : Python) (num : Numbers V) where
  apply_binary-IsValue :
      (op : BinOp) (a b : Evaluated V)
      → IsValue (apply_binary py num op a b)
      → IsListed op × (IsValue a × IsValue b)
  unfolding apply_binary
  apply_binary-IsValue (other_binary n) a b h = absurd h
  apply_binary-IsValue add a b h = (tt, both_IsValue a b (num.binary add) h)
  apply_binary-IsValue sub a b h = (tt, both_IsValue a b (num.binary sub) h)
  apply_binary-IsValue mult a b h = (tt, both_IsValue a b (num.binary mult) h)
  apply_binary-IsValue div a b h = (tt, both_IsValue a b (num.binary div) h)
  apply_binary-IsValue floor_div a b h = (tt, both_IsValue a b (num.binary floor_div) h)
  apply_binary-IsValue modulo a b h = (tt, both_IsValue a b (num.binary modulo) h)
  apply_binary-IsValue pow a b h = (tt, both_IsValue a b (num.binary pow) h)

  first_IsValue :
      {A B : Type 0} (a : Evaluated A) (f : A → Evaluated B) → IsValue (a >>= f) → IsValue a
  first_IsValue (value a) f h = tt
  first_IsValue (tool_error m) f h = absurd h
  first_IsValue zero_division f h = absurd h
  first_IsValue (raised m) f h = absurd h

  apply_unary-IsValue :
      (op : UnaryOp) (a : Evaluated V)
      → IsValue (apply_unary py num op a)
      → IsListedUnary op × IsValue a
  unfolding apply_unary
  apply_unary-IsValue (other_unary n) a h = absurd h
  apply_unary-IsValue u_add a h = (tt, first_IsValue a (num.unary u_add) h)
  apply_unary-IsValue u_sub a h = (tt, first_IsValue a (num.unary u_sub) h)

  literal-IsValue : (c : Literal) → IsValue (literal py num c) → IsNumeric c
  unfolding literal
  literal-IsValue (int z) h = tt
  literal-IsValue (float x) h = tt
  literal-IsValue not_a_number h = absurd h

  eval_name-IsValue : (n : Text) → IsValue (eval_name py num n) → is_one_of constants n ≡ true
  unfolding eval_name
  eval_name-IsValue n h = elim (Bool-cases (is_one_of constants n)) [
    | inl e ↦ e
    | inr e ↦ absurd (rw e at h)
  ]

  eval_call-IsValue :
      (f : Node) (keywords : Bool) (args : Evaluated (List V))
      → IsValue (eval_call py num f keywords args)
      → IsFunction f × ((keywords ≡ false) × IsValue args)
  unfolding eval_call
  eval_call-IsValue (name f) true args h = elim (Bool-cases (is_one_of functions f)) [
    | inl e ↦ absurd (rw e at h)
    | inr e ↦ absurd (rw e at h)
  ]
  eval_call-IsValue (name f) false args h = elim (Bool-cases (is_one_of functions f)) [
    | inl e ↦ (e, (refl, first_IsValue args (num.call_function f) (rw e at h)))
    | inr e ↦ absurd (rw e at h)
  ]
  eval_call-IsValue (constant c) keywords args h = absurd h
  eval_call-IsValue (bin_op op a b) keywords args h = absurd h
  eval_call-IsValue (unary_op op a) keywords args h = absurd h
  eval_call-IsValue (call g as_ k) keywords args h = absurd h
  eval_call-IsValue (unsupported class) keywords args h = absurd h

  mutual
    unfolding eval eval_all

    eval-IsValue : (t : Node) → IsValue (eval py num t) → IsArithmetic t
    eval-IsValue (constant c) h = literal-IsValue c h
    eval-IsValue (bin_op op a b) h =
        let parts = apply_binary-IsValue op (eval py num a) (eval py num b) h in
        (parts.0, (eval-IsValue a parts.1.0, eval-IsValue b parts.1.1))
    eval-IsValue (unary_op op a) h =
        let parts = apply_unary-IsValue op (eval py num a) h in (parts.0, eval-IsValue a parts.1)
    eval-IsValue (name n) h = eval_name-IsValue n h
    eval-IsValue (call f args keywords) h =
        let parts = eval_call-IsValue f keywords (eval_all py num args) h in
        (parts.0, (parts.1.0, eval_all-IsValue args parts.1.1))
    eval-IsValue (unsupported class) h = absurd h

    eval_all-IsValue : (args : Nodes) → IsValue (eval_all py num args) → AreArithmetic args
    eval_all-IsValue nil h = tt
    eval_all-IsValue (cons a args) h =
        let parts =
          both_IsValue (eval py num a) (eval_all py num args) (λ v vs. value (v ∷ vs)) h in
        (eval-IsValue a parts.0, eval_all-IsValue args parts.1)

  -- Whatever Python's operators and functions do, an expression either is arithmetic, or the tool ends
  -- with `ToolError`: nothing else than numbers, the listed operators, the two constants and calls of
  -- the listed functions is ever a result.
  pub calculate-IsArithmetic :
      (expression : Text) (t : Node)
      → num.parse expression ≡ tree t
      → IsArithmetic t ⊎ ((m : Text) × (calculate py num expression ≡ tool_error m))
  unfolding calculate evaluate conclude
  calculate-IsArithmetic expression t parsed =
      rw parsed (concluded (eval py num t) (eval-IsValue t))
    where
      concluded :
          (r : Evaluated V)
          → (IsValue r → IsArithmetic t)
          → IsArithmetic t ⊎ ((m : Text) × (conclude py num r ≡ tool_error m))
      concluded (value v) h = inl (h tt)
      concluded (tool_error m) h = inr (m, refl)
      concluded zero_division h = inr (_, refl)
      concluded (raised m) h = inr (_, refl)
