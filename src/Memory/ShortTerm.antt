-- ===== src/Memory/ShortTerm.antt =====
-- backend/app/memory/short_term/policy.py: the newest messages that fit the limits.
pub mod Window
pub mod Select
mod Tests
use ai_agent_hub.Common.{
  ℕ, zero, suc, ◌+◌, ◌*◌, ◌<◌, max, Bool, not, ◌&&◌, String, List, [], ◌∷◌, ◌++◌, reverse, ltb,
  if◌then◌else◌, length, take, take_last, is_empty,
}
use ai_agent_hub.Common.Ceil.{ceil_div}
use ai_agent_hub.Common.Int.{ℤ, nonpositive, magnitude}
use ai_agent_hub.Common.Result.{Result, ok, err}
use ai_agent_hub.Common.Text.{Text}

pub record MemoryMessage : Type 0 where
  pub role : String
  pub content : Text

pub record MemoryWindow : Type 0 where
  pub messages : List MemoryMessage
  pub used_tokens : ℕ

pub record ShortTermMemory : Type 0 where
  pub max_messages : ℕ
  pub token_budget : ℕ
  pub chars_per_token : ℕ

-- `__init__`; the error is the message of a `ValueError`.
unfoldable pub init :
    (max_messages token_budget chars_per_token : ℤ) → Result String ShortTermMemory
init max_messages token_budget chars_per_token =
    if nonpositive max_messages
    then err "max_messages must be greater than zero"
    else if nonpositive token_budget
    then err "token_budget must be greater than zero"
    else if nonpositive chars_per_token
    then err "chars_per_token must be greater than zero"
    else ok (record {
      max_messages = magnitude max_messages;
      token_budget = magnitude token_budget;
      chars_per_token = magnitude chars_per_token;
    })

pub record IsValid (m : ShortTermMemory) : Type 0 where
  pub some_messages : 0 < m.max_messages
  pub some_tokens : 0 < m.token_budget
  pub some_chars : 0 < m.chars_per_token

module _ (self : ShortTermMemory) where
  unfoldable pub estimate_tokens : Text → ℕ
  estimate_tokens text = max 1 (ceil_div (length text) self.chars_per_token)

  unfoldable pub truncate : Text → ℕ → Text
  truncate text token_budget = take (token_budget * self.chars_per_token) text

  -- The body of the loop: the message and the tokens that are added.
  unfoldable pub admit : MemoryMessage → List MemoryMessage → MemoryMessage × ℕ
  unfolding estimate_tokens truncate
  admit message selected =
      if is_empty selected && ltb self.token_budget (estimate_tokens message.content)
      then (
        record message { content = truncate message.content self.token_budget },
        self.token_budget,
      )
      else (message, estimate_tokens message.content)

  -- The loop over the reversed messages; a `break` returns what has been selected.
  unfoldable pub select_loop : List MemoryMessage → List MemoryMessage → ℕ → List MemoryMessage × ℕ
  unfolding admit
  select_loop [] selected used_tokens = (selected, used_tokens)
  select_loop (message ∷ rest) selected used_tokens =
      let (admitted, tokens) = admit message selected in
      let next = select_loop rest (selected ++ admitted ∷ []) (used_tokens + tokens) in
      if not (is_empty selected)
        && ltb self.token_budget (used_tokens + estimate_tokens message.content)
      then (selected, used_tokens)
      else next

  unfoldable pub select : List MemoryMessage → MemoryWindow
  unfolding select_loop
  select messages =
      let (selected, used_tokens) =
        select_loop (reverse (take_last self.max_messages messages)) [] 0 in
      record { messages = reverse selected; used_tokens = used_tokens }
