-- ===== src/Services/Chat/Tests.antt =====
-- Chats in a conversation about one document, with whole numbers for scores. The world counts the
-- calls of the embedder, the vector store and the model.
use ai_agent_hub.Common.{ℕ, ◌+◌, ◌≡◌, refl, String, none, some, List, [], ◌∷◌, ◌++◌, map, length}
use ai_agent_hub.Common.Int.{pos}
use ai_agent_hub.Common.Exec.{Exec}
use ai_agent_hub.Common.Result.{Result, ok, err}
use ai_agent_hub.Common.Ceil.{ceil_div}
use ai_agent_hub.Common.Text.{Text, codes, decimal}
use ai_agent_hub.Rag.Fusion.Samples.{numbers}
use ai_agent_hub.Rag.Retrievers.{SearchResult, VectorSearch}
use ai_agent_hub.Services.Store.{ServiceError}
use ai_agent_hub.Services.Chat.{
  Conversation, Message, ChatStore, LlmMessage, LlmFailure, llm_error, ChatSettings, ChatResponse,
  no_context_answer, unknown_conversation, retrieval_failed, empty_response, llm_raises,
  create_conversation, list_conversations, list_messages, delete_conversation,
}
use ai_agent_hub.Services.Chat.Conversing.{chat}
use ai_agent_hub.Services.Chat.Answered.{Chatted, chat-Chatted}

abbrev point : SearchResult ℕ
point = record {
  point_id = codes "p";
  score = 1;
  payload = record {
    chunk_id = some (codes "c");
    document_id = some (codes "d");
    filename = some (codes "f.txt");
    page_number = some 2;
    text = some (codes " forty two ");
    start_char = some 0;
    end_char = some 9;
  };
}

abbrev finding : List (SearchResult ℕ) → VectorSearch ℕ ℕ ℕ
finding results = record {
  embed = λ query x. (ok 7, x + 1);
  search = λ base vector limit x. (ok results, x + 1);
}

abbrev answering : Result LlmFailure Text → List LlmMessage → Exec ℕ LlmFailure Text
answering r messages x = (r, x + length messages)

abbrev settings : ChatSettings ℕ
settings = record {
  chat_retrieval_top_k = pos 5;
  retrieval_score_threshold = none;
  chat_history_max_messages = 8;
  context_builder = record { token_budget = 2000; chars_per_token = 4 };
  memory = record { max_messages = 8; token_budget = 2000; chars_per_token = 4 };
}

abbrev conversation : Conversation
conversation = record {
  id = 1;
  user_id = 7;
  knowledge_base_id = 3;
  title = codes "t";
  updated_at = 10;
}

abbrev message : ℕ → String → Text → Message
message id role content = record {
  id = id;
  conversation_id = 1;
  role = role;
  content = content;
  citations = [];
}

abbrev store : ChatStore ℕ
store = record {
  knowledge_bases = (record { id = 3; user_id = 7; name = "base"; description = none }) ∷ [];
  conversations = conversation ∷ [];
  messages = message 2 "user" (codes "hi") ∷ message 4 "assistant" (codes "hello") ∷ [];
  next_id = 5;
  now = 20;
  external = 0;
}

program : Unit {0}
unfolding create_conversation list_conversations list_messages delete_conversation chat ceil_div
    decimal
program = tt

abbrev contents : ChatStore ℕ → List Text
contents s = map (λ m. m.content) s.messages

abbrev old : List Text
old = codes "hi" ∷ codes "hello" ∷ []

abbrev chatting :
    List (SearchResult ℕ)
    → Result LlmFailure Text
    → ℕ
    → Text
    → Result ServiceError ChatResponse × ChatStore ℕ
chatting results r user_id question =
    chat numbers (finding results) (answering r) settings user_id 1 question store

-- The model sees the system prompt, two old messages and the question.
answers :
    contents (chatting (point ∷ []) (ok (codes " 42 ")) 7 (codes "what?")).1
    ≡ old ++ codes "what?" ∷ codes "42" ∷ []
unfolding program
answers = refl

model_is_asked : (chatting (point ∷ []) (ok (codes " 42 ")) 7 (codes "what?")).1.external ≡ 6
unfolding program
model_is_asked = refl

no_context :
    contents (chatting [] (ok (codes "made up")) 7 (codes "what?")).1
    ≡ old ++ codes "what?" ∷ no_context_answer ∷ []
unfolding program
no_context = refl

model_is_not_asked : (chatting [] (ok (codes "made up")) 7 (codes "what?")).1.external ≡ 2
unfolding program
model_is_not_asked = refl

blank_answer : (chatting (point ∷ []) (ok (codes " ")) 7 (codes "what?")).0 ≡ err empty_response
unfolding program
blank_answer = refl

model_fails :
    (chatting (point ∷ []) (err (llm_error "down")) 7 (codes "what?")).0
    ≡ err (llm_raises (llm_error "down"))
unfolding program
model_fails = refl

blank_question : (chatting (point ∷ []) (ok (codes "42")) 7 (codes "  ")).0 ≡ err retrieval_failed
unfolding program
blank_question = refl

question_stays :
    contents (chatting (point ∷ []) (ok (codes "42")) 7 (codes "  ")).1 ≡ old ++ codes "  " ∷ []
unfolding program
question_stays = refl

other_user :
    chatting (point ∷ []) (ok (codes "42")) 8 (codes "what?") ≡ (err unknown_conversation, store)
unfolding program
other_user = refl

newest_first :
    map (λ c. c.id) (list_conversations 7 (create_conversation 7 3 (codes " new ") store).1)
    ≡ 5 ∷ 1 ∷ []
unfolding program
newest_first = refl

deletes_messages : (delete_conversation 7 1 store).1.messages ≡ []
unfolding program
deletes_messages = refl

lists_messages : list_messages 7 1 store ≡ ok store.messages
unfolding program
lists_messages = refl

chat-Chatted_example :
    Chatted numbers
      (finding (point ∷ []))
      (answering (ok (codes " 42 ")))
      settings
      7
      1
      (codes "what?")
      store
      (chatting (point ∷ []) (ok (codes " 42 ")) 7 (codes "what?"))
chat-Chatted_example =
    chat-Chatted numbers (finding (point ∷ [])) (answering (ok (codes " 42 "))) settings 7 1
      (codes "what?") store
