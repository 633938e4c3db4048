-- ===== src/Memory/ShortTerm/Tests.antt =====
-- The selection on small inputs.
use ai_agent_hub.Common.{◌+◌, ◌≤◌, ◌<◌, ◌≡◌, refl, List, [], ◌∷◌, arith, length}
use ai_agent_hub.Common.Ceil.{ceil_div}
use ai_agent_hub.Common.Int.{pos}
use ai_agent_hub.Common.Result.{err}
use ai_agent_hub.Common.Text.{codes}
use ai_agent_hub.Memory.ShortTerm.{
  MemoryMessage, ShortTermMemory, IsValid, init, estimate_tokens, select,
}
use ai_agent_hub.Memory.ShortTerm.Window.{cost}
use ai_agent_hub.Memory.ShortTerm.Select.{IsNewest, select_bounds, select-IsNewest, select_maximal}

abbrev memory : ShortTermMemory
memory = record { max_messages = 3; token_budget = 4; chars_per_token = 2 }

abbrev first : MemoryMessage
first = record { role = "user"; content = codes "hello" }

abbrev second : MemoryMessage
second = record { role = "assistant"; content = codes "hi" }

abbrev third : MemoryMessage
third = record { role = "user"; content = codes "why?" }

abbrev messages : List MemoryMessage
messages = first ∷ second ∷ third ∷ []

memory-IsValid : IsValid memory
memory-IsValid = omega arith

select_two : select memory messages ≡ record { messages = second ∷ third ∷ []; used_tokens = 3 }
unfolding select ceil_div
select_two = refl

select_cut : select memory (record { role = "user"; content = codes "0123456789" } ∷ []) ≡ record {
  messages = record { role = "user"; content = codes "01234567" } ∷ [];
  used_tokens = 4;
}
unfolding select ceil_div
select_cut = refl

init_refuses : init (pos 8) (pos 0) (pos 4) ≡ err "token_budget must be greater than zero"
unfolding init
init_refuses = refl

select_bounds_example :
    ((select memory messages).used_tokens ≤ 4)
    × ((select memory messages).used_tokens ≡ cost memory (select memory messages).messages)
    × (length (select memory messages).messages ≤ 3)
select_bounds_example = select_bounds memory messages memory-IsValid

select-IsNewest_example : IsNewest memory messages (select memory messages).messages
select-IsNewest_example = select-IsNewest memory messages memory-IsValid

select_maximal_example :
    4 < (select memory messages).used_tokens + estimate_tokens memory first.content
unfolding select ceil_div
select_maximal_example =
    select_maximal memory messages memory-IsValid [] (second ∷ third ∷ []) first refl refl
      (omega arith)
