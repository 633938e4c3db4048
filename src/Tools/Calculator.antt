-- ===== src/Tools/Calculator.antt =====
-- backend/app/tools/calculator.py: the calculator over the syntax tree of an expression.
-- `N` is the type of Python's numbers, by the operations that the code uses, and `parse` is
-- `ast.parse`, which gives no tree where it raises.
pub mod Bounded
mod Tests
use ai_agent_hub.Common.{
  ℕ, String, Bool, true, false, not, ◌&&◌, ◌||◌, Option, none, some, List, [], ◌∷◌, if◌then◌else◌,
  ltb, ◌==◌, string_eq,
}
use ai_agent_hub.Common.Result.{Result, ok, err, raise_if, ◌>>=◌, ◌>>◌}
use ai_agent_hub.Common.Strings.{trim, string_empty, string_length}
use ai_agent_hub.Agents.State.{Json, Fields}
use ai_agent_hub.Tools.Contracts.{ToolError, ToolFailure, tool_error, unexpected}
use ai_agent_hub.Tools.Schema.{lookup}

-- The operators with an entry in `_binary_operators` and `_unary_operators`, and the others.
pub data BinaryOperator : Type 0 where
  add sub mult div mod_ pow other_binary : BinaryOperator

pub data UnaryOperator : Type 0 where
  uadd usub other_unary : UnaryOperator

pub data Node (N : Type 0) : Type 0 where
  number : N → Node N
  boolean : Bool → Node N
  binary : BinaryOperator → Node N → Node N → Node N
  unary : UnaryOperator → Node N → Node N
  other_node : Node N

-- What the evaluation may raise: a `ToolError`, or one of the errors that `execute` turns into one.
pub data CalculatorError : Type 0 where
  tool : ToolError → CalculatorError
  arithmetic : CalculatorError

-- The operations of numbers. `operate` and `invert` may raise an arithmetic error, `is_above k n` is
-- `abs(n) > k`, and `finite` is `math.isfinite(float(n))`, which may raise as well.
pub record Numbers (N : Type 0) : Type 0 where
  pub operate : BinaryOperator → N → N → Result CalculatorError N
  pub invert : UnaryOperator → N → Result CalculatorError N
  pub is_above : ℕ → N → Bool
  pub finite : N → Option Bool
  pub to_json : N → Json

abbrev pub invalid_input : String → ToolError
invalid_input message = record { code = "CALCULATOR_INVALID_INPUT"; message = message }

abbrev pub invalid_expression : String → ToolError
invalid_expression message = record { code = "CALCULATOR_INVALID_EXPRESSION"; message = message }

abbrev pub out_of_range : String → ToolError
out_of_range message = record { code = "CALCULATOR_RESULT_OUT_OF_RANGE"; message = message }

abbrev pub unsupported : ToolError
unsupported = invalid_expression "Only arithmetic operators are supported"

abbrev pub is_pow : BinaryOperator → Bool
is_pow pow = true
is_pow _ = false

-- `type(node.op) in cls._binary_operators`
abbrev pub is_supported : BinaryOperator → Bool
is_supported other_binary = false
is_supported _ = true

module _ {N : Type 0} (numbers : Numbers N) where
  abbrev pub operate_checked : BinaryOperator → N → N → Result CalculatorError N
  operate_checked op left right = do
    raise_if (is_pow op && numbers.is_above 100 right) (tool (out_of_range "Exponent is too large"))
    numbers.operate op left right

  abbrev pub operate_on :
      BinaryOperator
      → Result CalculatorError N
      → Result CalculatorError N
      → Result CalculatorError N
  operate_on op left right =
      if is_supported op
      then (left >>= λ l. right >>= λ r. operate_checked op l r)
      else err (tool unsupported)

  abbrev pub invert_on : UnaryOperator → Result CalculatorError N → Result CalculatorError N
  invert_on other_unary operand = err (tool unsupported)
  invert_on op operand = operand >>= numbers.invert op

  -- `_evaluate`
  unfoldable pub evaluate : Node N → Result CalculatorError N
  evaluate (number n) = ok n
  evaluate (boolean b) = err (tool (invalid_expression "Boolean values are not supported"))
  evaluate (binary op left right) = operate_on op (evaluate left) (evaluate right)
  evaluate (unary op operand) = invert_on op (evaluate operand)
  evaluate other_node = err (tool unsupported)

  -- The `except` clauses.
  abbrev pub evaluated_value : Result CalculatorError N → Result ToolFailure N
  evaluated_value (ok value) = ok value
  evaluated_value (err (tool e)) = err (tool_error e)
  evaluated_value (err arithmetic) =
      err (tool_error (invalid_expression "Calculator expression is invalid"))

  -- The `try` block.
  unfoldable pub value_of : Option (Node N) → Result ToolFailure N
  unfolding evaluate
  value_of none = err (tool_error (invalid_expression "Calculator expression is invalid"))
  value_of (some tree) = evaluated_value (evaluate tree)

  -- The test of the result, and the answer.
  abbrev pub answer : String → N → Option Bool → Result ToolFailure Json
  answer expression value none = err unexpected
  answer expression value (some is_finite) =
      if not is_finite || numbers.is_above 1000000000000 value
      then err (tool_error (out_of_range "Calculator result is out of range"))
      else ok (
          Json.obj (
            Fields.field "expression" (Json.str (trim expression))
              (Fields.field "result" (numbers.to_json value) Fields.end)))

  module _ (parse : String → Option (Node N)) where
    unfoldable pub calculate : String → Result ToolFailure Json
    unfolding trim value_of
    calculate expression =
        if string_empty (trim expression)
        then err (tool_error (invalid_input "Calculator expression must be a non-empty string"))
        else if ltb 200 (string_length expression)
        then err (tool_error (invalid_input "Calculator expression is too long"))
        else value_of (parse expression) >>= λ value. answer expression value (numbers.finite value)

    abbrev pub calculate_argument : Option Json → Result ToolFailure Json
    calculate_argument (some (Json.str expression)) = calculate expression
    calculate_argument _ =
        err (tool_error (invalid_input "Calculator expression must be a non-empty string"))

    -- `execute`
    unfoldable pub execute_calculator : Fields → Result ToolFailure Json
    unfolding lookup calculate
    execute_calculator arguments = calculate_argument (lookup arguments "expression")
