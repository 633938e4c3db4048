-- ===== src/Tools/Calculator/Bounded.antt =====
-- What the calculator answers.
use ai_agent_hub.Common.{
  ◌≤◌, ◌≡◌, refl, String, Bool, true, false, ◌&&◌, Option, none, some, arith, if◌then◌else◌, ltb,
  Bool-cases, inl, inr,
}
use ai_agent_hub.Common.Result.{Result, ok, err, raise_if, ◌>>=◌, ◌>>◌}
use ai_agent_hub.Common.Strings.{trim, string_empty, string_length}
use ai_agent_hub.Agents.State.{Json, Fields}
use ai_agent_hub.Tools.Contracts.{ToolError, ToolFailure, tool_error, unexpected}
use ai_agent_hub.Tools.Schema.{lookup}
use ai_agent_hub.Tools.Calculator.{
  BinaryOperator, add, sub, mult, div, mod_, pow, other_binary, UnaryOperator, uadd, usub,
  other_unary, Node, number, boolean, binary, unary, other_node, CalculatorError, tool, arithmetic,
  Numbers, is_pow, is_supported, unsupported, operate_checked, operate_on, invert_on, evaluate,
  evaluated_value, value_of, answer, calculate, calculate_argument, execute_calculator,
}

module _ {N : Type 0} (numbers : Numbers N) where
  -- The right side of a power has a value that is not above 100.
  abbrev PowerFits : BinaryOperator → Node N → Type 0
  PowerFits pow right = (v : N) × (evaluate numbers right ≡ ok v) × (numbers.is_above 100 v ≡ false)
  PowerFits _ right = Unit

  -- Every power of a tree is bounded.
  abbrev pub IsBounded : Node N → Type 0
  IsBounded (number n) = Unit
  IsBounded (boolean b) = Unit
  IsBounded (binary op left right) = IsBounded left × IsBounded right × PowerFits op right
  IsBounded (unary op operand) = IsBounded operand
  IsBounded other_node = Unit

  both_ok :
      (op : BinaryOperator) (l r : Result CalculatorError N) (v : N)
      → operate_on numbers op l r ≡ ok v
      → (a : N) × (b : N) × (l ≡ ok a)
        × (r ≡ ok b)
        × ((is_pow op && numbers.is_above 100 b) ≡ false)
  both_ok op l r v h = supported (is_supported op) l r h
    where
      passed :
          (t : Bool) (e : CalculatorError) (k : Result CalculatorError N)
          → (raise_if t e >> k) ≡ ok v
          → t ≡ false
      passed true e k h = cc
      passed false e k h = refl

      supported :
          (b : Bool) (l r : Result CalculatorError N)
          → (if b
              then (l >>= λ x. r >>= λ y. operate_checked numbers op x y)
              else err (tool unsupported))
            ≡ ok v
          → (a : N) × (b : N) × (l ≡ ok a)
            × (r ≡ ok b)
            × ((is_pow op && numbers.is_above 100 b) ≡ false)
      supported false l r h = absurd (cc)
      supported true (err e) r h = absurd (cc)
      supported true (ok a) (err e) h = absurd (cc)
      supported true (ok a) (ok b) h = (a, b, refl, refl, passed _ _ _ h)

  operand_ok :
      (op : UnaryOperator) (r : Result CalculatorError N) (v : N)
      → invert_on numbers op r ≡ ok v
      → (a : N) × (r ≡ ok a)
  operand_ok op (ok a) v h = (a, refl)
  operand_ok uadd (err e) v h = absurd (cc)
  operand_ok usub (err e) v h = absurd (cc)
  operand_ok other_unary (err e) v h = absurd (cc)

  evaluate-IsBounded : (tree : Node N) (v : N) → evaluate numbers tree ≡ ok v → IsBounded tree
  unfolding evaluate
  evaluate-IsBounded (number n) v h = tt
  evaluate-IsBounded (boolean b) v h = tt
  evaluate-IsBounded other_node v h = tt
  evaluate-IsBounded (unary op operand) v h =
      let (a, e) = operand_ok op (evaluate numbers operand) v h in evaluate-IsBounded operand a e
  evaluate-IsBounded (binary op left right) v h =
      let (a, b, el, er, small) = both_ok op (evaluate numbers left) (evaluate numbers right) v h in
      (evaluate-IsBounded left a el, evaluate-IsBounded right b er, fits op b er small)
    where
      fits :
          (op : BinaryOperator) (b : N)
          → evaluate numbers right ≡ ok b
          → (is_pow op && numbers.is_above 100 b) ≡ false
          → PowerFits op right
      fits pow b e small = (b, e, small)
      fits add b e small = tt
      fits sub b e small = tt
      fits mult b e small = tt
      fits div b e small = tt
      fits mod_ b e small = tt
      fits other_binary b e small = tt

  -- What an answer tells: the text is short and has a tree with bounded powers, whose value is
  -- finite and within the range.
  pub record IsAnswer (parse : String → Option (Node N)) (expression : String) (json : Json)
      : Type 0 where
    pub tree : Node N
    pub value : N
    pub short : string_length expression ≤ 200
    pub parsed : parse expression ≡ some tree
    pub evaluated : evaluate numbers tree ≡ ok value
    pub bounded : IsBounded tree
    pub is_finite : numbers.finite value ≡ some true
    pub in_range : numbers.is_above 1000000000000 value ≡ false
    pub shows :
        json
        ≡ Json.obj (
            Fields.field "expression"
              (Json.str (trim expression))
              (Fields.field "result" (numbers.to_json value) Fields.end))

  -- How a calculation ends.
  pub data Calculated (parse : String → Option (Node N)) (arguments : Fields)
      (r : Result ToolFailure Json) : Type 0 where
    answered :
        (expression : String) (json : Json)
        → lookup arguments "expression" ≡ some (Json.str expression)
        → r ≡ ok json
        → IsAnswer parse expression json
        → Calculated parse arguments r
    refused : (e : ToolError) → r ≡ err (tool_error e) → Calculated parse arguments r
    -- The conversion of the value to a float raises, outside of the `try` block.
    broken :
        (tree : Node N) (value : N)
        → evaluate numbers tree ≡ ok value
        → numbers.finite value ≡ none
        → r ≡ err unexpected
        → Calculated parse arguments r

  module _ (parse : String → Option (Node N)) where
    -- A calculation is answered with the value of the expression, which has at most 200 characters,
    -- powers with exponents of at most 100 and a value within the range; or it is refused with a
    -- `ToolError`; or the conversion of the value to a float raises, which is no `ToolError`.
    pub execute_calculator-Calculated :
        (arguments : Fields)
        → Calculated parse arguments (execute_calculator numbers parse arguments)
    unfolding execute_calculator calculate
    execute_calculator-Calculated arguments = by_argument (lookup arguments "expression") refl
      where
        by_finite :
            (expression : String) (tree : Node N) (value : N) (finite : Option Bool)
            → lookup arguments "expression" ≡ some (Json.str expression)
            → string_length expression ≤ 200
            → parse expression ≡ some tree
            → evaluate numbers tree ≡ ok value
            → numbers.finite value ≡ finite
            → Calculated parse arguments (answer numbers expression value finite)
        by_finite expression tree value none el short p e f = broken tree value e f refl
        by_finite expression tree value (some false) el short p e f = refused _ refl
        by_finite expression tree value (some true) el short p e f =
            elim (Bool-cases (numbers.is_above 1000000000000 value)) [
              | inl above ↦ rw above (refused _ refl)
              | inr within ↦ rw within (
                  answered expression _ el refl (record {
                    tree = tree;
                    value = value;
                    short = short;
                    parsed = p;
                    evaluated = e;
                    bounded = evaluate-IsBounded tree value e;
                    is_finite = f;
                    in_range = within;
                    shows = refl;
                  }))
            ]

        by_value :
            (expression : String) (tree : Node N) (v : Result CalculatorError N)
            → lookup arguments "expression" ≡ some (Json.str expression)
            → string_length expression ≤ 200
            → parse expression ≡ some tree
            → evaluate numbers tree ≡ v
            → Calculated parse arguments
                (evaluated_value numbers v >>= λ x. answer numbers expression x (numbers.finite x))
        by_value expression tree (ok value) el short p e =
            by_finite expression tree value (numbers.finite value) el short p e refl
        by_value expression tree (err (tool t)) el short p e = refused t refl
        by_value expression tree (err arithmetic) el short p e = refused _ refl

        by_tree :
            (expression : String) (tree : Option (Node N))
            → lookup arguments "expression" ≡ some (Json.str expression)
            → string_length expression ≤ 200
            → parse expression ≡ tree
            → Calculated parse arguments
                (value_of numbers tree >>= λ x. answer numbers expression x (numbers.finite x))
        by_tree expression none el short p = unfold value_of in refused _ refl
        by_tree expression (some tree) el short p =
            unfold value_of in by_value expression tree (evaluate numbers tree) el short p refl

        by_argument :
            (j : Option Json)
            → lookup arguments "expression" ≡ j
            → Calculated parse arguments (calculate_argument numbers parse j)
        by_argument (some (Json.str expression)) el =
            elim (Bool-cases (string_empty (trim expression))) [
              | inl blank ↦ rw blank (refused _ refl)
              | inr text ↦ elim (Bool-cases (ltb 200 (string_length expression))) [
                | inl long ↦ rw (text, long) (refused _ refl)
                | inr short ↦
                    rw (text, short) (by_tree expression (parse expression) el (ground arith) refl)
              ]
            ]
        by_argument _ el = refused _ refl
