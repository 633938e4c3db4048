-- ===== src/Tools/Calculator/Tests.antt =====
-- Small calculations over whole numbers.
use ai_agent_hub.Common.{
  ℕ, ◌+◌, ◌-◌, ◌*◌, ◌/◌, ◌%◌, ◌^◌, ◌≡◌, refl, String, true, Option, none, some, if◌then◌else◌, ltb,
}
use ai_agent_hub.Common.Int.{pos}
use ai_agent_hub.Common.Result.{Result, ok, err}
use ai_agent_hub.Agents.State.{Json, Fields}
use ai_agent_hub.Tools.Contracts.{unexpected}
use ai_agent_hub.Tools.Calculator.{
  BinaryOperator, add, sub, mult, div, mod_, pow, other_binary, Node, number, binary,
  CalculatorError, arithmetic, Numbers, execute_calculator,
}
use ai_agent_hub.Tools.Calculator.Bounded.{Calculated, execute_calculator-Calculated}

abbrev operate : BinaryOperator → ℕ → ℕ → Result CalculatorError ℕ
operate add a b = ok (a + b)
operate sub a b = ok (a - b)
operate mult a b = ok (a * b)
operate div a b = if ltb 0 b then ok (a / b) else err arithmetic
operate mod_ a b = if ltb 0 b then ok (a % b) else err arithmetic
operate pow a b = ok (a ^ b)
operate other_binary a b = err arithmetic

-- A number above 10 ^ 308 has no float.
abbrev numbers : Numbers ℕ
numbers = record {
  operate = operate;
  invert = λ op n. ok n;
  is_above = λ k n. ltb k n;
  finite = λ n. if ltb (10 ^ 308) n then none else some true;
  to_json = λ n. Json.int (pos n);
}

abbrev parse : String → Option (Node ℕ)
parse expression = some (binary pow (number 2) (number 10))

-- `(10 ** 100) ** 4`
abbrev parse_large : String → Option (Node ℕ)
parse_large expression = some (binary pow (binary pow (number 10) (number 100)) (number 4))

abbrev arguments : Fields
arguments = Fields.field "expression" (Json.str "x") Fields.end

program : Unit {0}
unfolding execute_calculator
program = tt

power :
    execute_calculator numbers parse arguments
    ≡ ok (
        Json.obj (
          Fields.field "expression"
            (Json.str "x")
            (Fields.field "result" (Json.int (pos 1024)) Fields.end)))
unfolding program
power = refl

-- A large value is reported as no `ToolError`.
large : execute_calculator numbers parse_large arguments ≡ err unexpected
unfolding program
large = refl

execute_calculator-Calculated_example :
    Calculated numbers parse arguments (execute_calculator numbers parse arguments)
execute_calculator-Calculated_example = execute_calculator-Calculated numbers parse arguments
