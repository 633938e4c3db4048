-- ===== src/Services/Chat.antt =====
-- backend/app/services/chat.py, with backend/app/repositories/conversations.py: conversations, their
-- messages, and the answer to a message from what is retrieved.
-- The embedder, the vector store and the language model are parameters. Rows change at once: the
-- service raises only where the session has nothing that is not committed. Messages stand oldest
-- first. The observations of a call are not modelled.

pub mod Conversing
pub mod Answered
mod Tests
use ai_agent_hub.Common.{
  ℕ, suc, ◌+◌, String, Bool, not, ◌&&◌, ◌||◌, Option, none, some, List, [], ◌∷◌, ◌++◌, map, ◌==◌,
  nat_eq, string_eq, if◌then◌else◌, find, change, filter, take_last, ltb,
}
use ai_agent_hub.Common.Int.{ℤ}
use ai_agent_hub.Common.Exec.{Exec}
use ai_agent_hub.Common.Result.{Result, ok, err}
use ai_agent_hub.Common.Sort.{sort_by}
use ai_agent_hub.Common.Text.{Text, codes, strip, is_blank}
use ai_agent_hub.Memory.ShortTerm.{MemoryMessage, ShortTermMemory, select}
use ai_agent_hub.Rag.Contracts.{Uuid, RetrievedChunk}
use ai_agent_hub.Rag.Context.{Citation, ContextBuilder, ContextResult, build}
use ai_agent_hub.Rag.Fusion.{Floats}
use ai_agent_hub.Rag.Retrievers.{RetrieverError, VectorSearch, retrieve_dense}
use ai_agent_hub.Services.KnowledgeBases.{KnowledgeBase, get_owned}
use ai_agent_hub.Services.Store.{ServiceError, app, unexpected}

pub record Conversation : Type 0 where
  pub id : ℕ
  pub user_id : ℕ
  pub knowledge_base_id : ℕ
  pub title : Text
  pub updated_at : ℕ

pub record Message : Type 0 where
  pub id : ℕ
  pub conversation_id : ℕ
  pub role : String
  pub content : Text
  pub citations : List Citation

pub record ChatStore (X : Type 0) : Type 0 where
  pub knowledge_bases : List KnowledgeBase
  pub conversations : List Conversation
  pub messages : List Message
  pub next_id : ℕ
  pub now : ℕ
  pub external : X

pub record LlmMessage : Type 0 where
  pub role : String
  pub content : Text

-- An `LLMError` with its message, or another exception.
pub data LlmFailure : Type 0 where
  llm_error : String → LlmFailure
  other_failure : LlmFailure

pub record ChatSettings (S : Type 0) : Type 0 where
  pub chat_retrieval_top_k : ℤ
  pub retrieval_score_threshold : Option S
  pub chat_history_max_messages : ℕ
  pub context_builder : ContextBuilder
  pub memory : ShortTermMemory

pub record ChatResponse : Type 0 where
  pub conversation : Conversation
  pub message : Message
  pub citations : List Citation

abbrev pub no_context_answer : Text
no_context_answer = codes "I couldn't confirm an answer from the knowledge base."

abbrev pub system_prompt : Text
system_prompt =
    codes "Answer only from the supplied knowledge-base context. If the context does not support "
    ++ codes "the answer, say that you cannot confirm it from the knowledge base."

abbrev pub unknown_conversation : ServiceError
unknown_conversation = app "CONVERSATION_NOT_FOUND" "Conversation was not found" 404

abbrev pub retrieval_failed : ServiceError
retrieval_failed = app "RETRIEVAL_FAILED" "Knowledge retrieval failed" 502

abbrev pub empty_response : ServiceError
empty_response = app "LLM_EMPTY_RESPONSE" "LLM provider returned an empty response" 502

-- What `_chat` raises when `generate` does.
abbrev pub llm_raises : LlmFailure → ServiceError
llm_raises (llm_error message) = app "LLM_GENERATION_FAILED" message 502
llm_raises other_failure = unexpected

-- `order_by(updated_at.desc(), id)`
abbrev pub comes_first : Conversation → Conversation → Bool
comes_first a b = ltb b.updated_at a.updated_at || ((a.updated_at == b.updated_at) && ltb a.id b.id)

-- `item.role in {"user", "assistant"}`, of a message that is not the new one
abbrev pub is_history : ℕ → Message → Bool
is_history new_id m = not (m.id == new_id) && ((m.role == "user") || (m.role == "assistant"))

abbrev pub remembered : Message → MemoryMessage
remembered m = record { role = m.role; content = m.content }

abbrev pub said : MemoryMessage → LlmMessage
said m = record { role = m.role; content = m.content }

abbrev pub found_or_raise : Option Conversation → Result ServiceError Conversation
found_or_raise none = err unknown_conversation
found_or_raise (some c) = ok c

module _ {X : Type 0} where
  -- `ConversationRepository.get_owned`
  unfoldable pub owned_conversation : ℕ → ℕ → ChatStore X → Option Conversation
  unfolding find
  owned_conversation conversation_id user_id s =
      find (λ c. (c.id == conversation_id) && (c.user_id == user_id)) s.conversations

  -- `MessageRepository.create`
  unfoldable pub create_message :
      ℕ → String → Text → List Citation → ChatStore X → Message × ChatStore X
  create_message conversation_id role content citations s =
      let message : Message = record {
        id = s.next_id;
        conversation_id = conversation_id;
        role = role;
        content = content;
        citations = citations;
      } in
      (message, record s { messages = s.messages ++ message ∷ []; next_id = s.next_id + 1 })

  -- `MessageRepository.list_for_conversation`
  unfoldable pub list_for_conversation : ℕ → ℕ → ChatStore X → List Message
  unfolding filter
  list_for_conversation conversation_id limit s =
      take_last limit (filter (λ m. m.conversation_id == conversation_id) s.messages)

  -- `ConversationRepository.touch`
  unfoldable pub touch : Conversation → ChatStore X → Conversation × ChatStore X
  unfolding change
  touch conversation s =
      let touched = record conversation { updated_at = s.now } in
      (
        touched,
        record s {
          conversations = change (λ c. c.id == conversation.id) (λ c. touched) s.conversations;
        },
      )

  abbrev pub create_in :
      ℕ
      → ℕ
      → Text
      → Option KnowledgeBase
      → ChatStore X
      → Result ServiceError Conversation × ChatStore X
  create_in user_id knowledge_base_id title none s =
      (err (app "KNOWLEDGE_BASE_NOT_FOUND" "Knowledge base was not found" 404), s)
  create_in user_id knowledge_base_id title (some base) s =
      let conversation : Conversation = record {
        id = s.next_id;
        user_id = user_id;
        knowledge_base_id = knowledge_base_id;
        title = strip title;
        updated_at = s.now;
      } in
      (
        ok conversation,
        record s { conversations = conversation ∷ s.conversations; next_id = s.next_id + 1 },
      )

  -- `create_conversation`
  unfoldable pub create_conversation :
      ℕ → ℕ → Text → ChatStore X → Result ServiceError Conversation × ChatStore X
  unfolding strip get_owned
  create_conversation user_id knowledge_base_id title s =
      create_in user_id knowledge_base_id title
        (get_owned knowledge_base_id user_id s.knowledge_bases) s

  -- `list_conversations`
  unfoldable pub list_conversations : ℕ → ChatStore X → List Conversation
  unfolding filter sort_by
  list_conversations user_id s =
      sort_by comes_first (filter (λ c. c.user_id == user_id) s.conversations)

  -- `get_conversation`
  unfoldable pub get_conversation : ℕ → ℕ → ChatStore X → Result ServiceError Conversation
  unfolding owned_conversation
  get_conversation user_id conversation_id s =
      found_or_raise (owned_conversation conversation_id user_id s)

  abbrev pub messages_of :
      Result ServiceError Conversation → ChatStore X → Result ServiceError (List Message)
  messages_of (err e) s = err e
  messages_of (ok c) s = ok (list_for_conversation c.id 20 s)

  -- `list_messages`, with the limit that is the default of the repository
  unfoldable pub list_messages : ℕ → ℕ → ChatStore X → Result ServiceError (List Message)
  unfolding get_conversation list_for_conversation
  list_messages user_id conversation_id s =
      messages_of (get_conversation user_id conversation_id s) s

  abbrev pub delete_found :
      Result ServiceError Conversation → ChatStore X → Result ServiceError (Unit {0}) × ChatStore X
  delete_found (err e) s = (err e, s)
  delete_found (ok c) s = (
    ok tt,
    record s {
      conversations = filter (λ other. not (other.id == c.id)) s.conversations;
      messages = filter (λ m. not (m.conversation_id == c.id)) s.messages;
    },
  )

  -- `delete_conversation`; the database deletes the messages with their conversation.
  unfoldable pub delete_conversation :
      ℕ → ℕ → ChatStore X → Result ServiceError (Unit {0}) × ChatStore X
  unfolding get_conversation filter
  delete_conversation user_id conversation_id s =
      delete_found (get_conversation user_id conversation_id s) s
