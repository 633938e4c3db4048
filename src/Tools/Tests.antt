-- ===== src/Tools/Tests.antt =====
-- Calls of a tool that counts how often it has run.
use ai_agent_hub.Common.{ℕ, ◌+◌, ◌≡◌, ◌⊎◌, refl, Bool, true, false, none, some, [], ◌∷◌}
use ai_agent_hub.Common.Int.{pos}
use ai_agent_hub.Common.Result.{ok}
use ai_agent_hub.Common.Exec.{Exec}
use ai_agent_hub.Common.Dict.{get}
use ai_agent_hub.Agents.State.{ToolCallStatus, Json, Items, Fields, ToolCallState}
use ai_agent_hub.Agents.Samples.{first}
use ai_agent_hub.Tools.Contracts.{ToolContext, ToolFailure, Tool, World, Outside}
use ai_agent_hub.Tools.Schema.{validate_arguments}
use ai_agent_hub.Tools.Schema.Conforms.{Conforms, validate_arguments_iff_Conforms}
use ai_agent_hub.Tools.Registry.{ToolRegistry, register, list_descriptors}
use ai_agent_hub.Tools.Registry.Registration.{Lists, Keyed, register-Keyed, list_descriptors-Lists}
use ai_agent_hub.Tools.Execution.{execute}
use ai_agent_hub.Tools.Execution.Logged.{Audited}
use ai_agent_hub.Tools.Execution.Audit.{execute-Audited}
use ai_agent_hub.Tools.Execution.Gate.{Allowed, execute-Allowed}

abbrev schema : Fields
schema = Fields.field "type" (Json.str "object") (
    Fields.field "properties"
      (Json.obj (
        Fields.field "n" (Json.obj (Fields.field "type" (Json.str "integer") Fields.end))
          Fields.end))
      (Fields.field "required" (Json.arr (Items.cons (Json.str "n") Items.nil)) Fields.end))

abbrev arguments : Fields
arguments = Fields.field "n" (Json.int (pos 4)) Fields.end

count : ℕ → Fields → ToolContext → Exec ℕ ToolFailure Json
count limit a c runs = (ok (Json.int (pos runs)), runs + 1)

abbrev counter : Bool → Tool ℕ
counter dangerous = record {
  name = " counter ";
  description = "Counts its runs";
  input_schema = Json.obj schema;
  requires_approval = dangerous;
  execute = count;
}

abbrev registry : Bool → ToolRegistry ℕ
registry dangerous = record {
  timeout_seconds = 30;
  has_recorder = true;
  has_observability = true;
  tools = ("counter", counter dangerous) ∷ [];
}

abbrev outside : Outside ℕ
outside = record { now = λ v. 9; duration_ms = λ v. 5; is_down = λ v. false }

abbrev world : World ℕ
world = record { records = []; next_id = 7; events = []; outside = 0 }

abbrev call : ToolCallState
call = record {
  call_id = some "c1";
  name = some "counter";
  arguments = Json.obj arguments;
  status = ToolCallStatus.pending;
  result = none;
  error = none;
}

program : Unit {0}
unfolding execute register validate_arguments count get
program = tt

runs_once : (execute outside (registry false) call first world).1.outside ≡ 1
unfolding program
runs_once = refl

waits : (execute outside (registry true) call first world).1.outside ≡ 0
unfolding program
waits = refl

registers : register [] (counter false) ≡ ok (("counter", counter false) ∷ [])
unfolding program
registers = refl

no_tools : Keyed {V = ℕ} []
unfolding get
no_tools name tool found = cc

list_descriptors-Lists_example :
    Lists (("counter", counter false) ∷ []) (list_descriptors (("counter", counter false) ∷ []))
list_descriptors-Lists_example =
    list_descriptors-Lists (("counter", counter false) ∷ [])
      (register-Keyed [] (counter false) (("counter", counter false) ∷ []) registers no_tools)

validate_arguments_iff_Conforms_example :
    (validate_arguments schema arguments ≡ ok tt → Conforms schema arguments)
    × (Conforms schema arguments → validate_arguments schema arguments ≡ ok tt)
validate_arguments_iff_Conforms_example = validate_arguments_iff_Conforms schema arguments

execute-Allowed_example :
    ((execute outside (registry false) call first world).1.outside ≡ 0)
    ⊎ Allowed (registry false) call first
execute-Allowed_example = execute-Allowed outside (registry false) call first world

execute-Audited_example :
    Audited outside
      (registry false)
      (λ v. refl)
      refl
      7
      3
      "c1"
      "counter"
      arguments
      []
      (execute outside (registry false) call first world)
execute-Audited_example =
    execute-Audited outside (registry false) (λ v. refl) refl call first world 3 arguments refl refl
      refl
