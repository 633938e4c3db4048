-- ===== src/Services/Chat/Conversing.antt =====
-- backend/app/services/chat.py: `_chat`, the answer to a message.
use ai_agent_hub.Common.{ℕ, ◌+◌, List, [], ◌∷◌, ◌++◌, map, nat_eq, string_eq, if◌then◌else◌, filter}
use ai_agent_hub.Common.Exec.{Exec}
use ai_agent_hub.Common.Result.{Result, ok, err}
use ai_agent_hub.Common.Text.{Text, codes, strip, is_blank}
use ai_agent_hub.Memory.ShortTerm.{MemoryMessage, select}
use ai_agent_hub.Rag.Contracts.{RetrievedChunk}
use ai_agent_hub.Rag.Context.{Citation, build}
use ai_agent_hub.Rag.Fusion.{Floats}
use ai_agent_hub.Rag.Retrievers.{RetrieverError, VectorSearch, retrieve_dense}
use ai_agent_hub.Services.Store.{ServiceError}
use ai_agent_hub.Services.Chat.{
  Conversation, Message, ChatStore, LlmMessage, LlmFailure, ChatSettings, ChatResponse,
  no_context_answer, system_prompt, retrieval_failed, empty_response, llm_raises, is_history,
  remembered, said, create_message, list_for_conversation, touch, get_conversation,
}

module _ {X S Vector : Type 0} (floats : Floats S) (service : VectorSearch X S Vector)
    (generate : List LlmMessage → Exec X LlmFailure Text) (settings : ChatSettings S) where
  -- The history that the model sees.
  unfoldable pub recall : Conversation → ℕ → ChatStore X → List MemoryMessage
  unfolding list_for_conversation filter select
  recall c new_id s =
      (select settings.memory (
        map remembered (
          filter (is_history new_id)
            (list_for_conversation c.id (settings.chat_history_max_messages + 1) s)))).messages

  -- `llm_messages`
  unfoldable pub prompt_of : List MemoryMessage → Text → Text → List LlmMessage
  prompt_of history context_text message =
      (record { role = "system"; content = system_prompt })
      ∷ (map said history
          ++ (record {
            role = "user";
            content =
                codes "Knowledge-base context:\n"
                ++ (context_text ++ (codes "\n\nUser question:\n" ++ message));
          })
            ∷ [])

  -- The end of `_chat`, when there is an answer.
  unfoldable pub reply :
      Conversation
      → Text
      → List Citation
      → ChatStore X
      → Result ServiceError ChatResponse × ChatStore X
  unfolding create_message touch
  reply c answer citations s =
      let (message, s1) = create_message c.id "assistant" answer citations s in
      let (touched, s2) = touch c s1 in
      (ok (record { conversation = touched; message = message; citations = citations }), s2)

  abbrev pub reply_generated :
      Conversation
      → List Citation
      → Result LlmFailure Text
      → ChatStore X
      → Result ServiceError ChatResponse × ChatStore X
  reply_generated c citations (err failure) s = (err (llm_raises failure), s)
  reply_generated c citations (ok content) s =
      if is_blank content then (err empty_response, s) else reply c (strip content) citations s

  -- The answer from a context, by its citations.
  unfoldable pub answer_from :
      Conversation
      → ℕ
      → Text
      → Text
      → List Citation
      → ChatStore X
      → Result ServiceError ChatResponse × ChatStore X
  unfolding reply recall prompt_of is_blank strip
  answer_from c new_id message context_text [] s = reply c no_context_answer [] s
  answer_from c new_id message context_text (citation ∷ citations) s =
      let (r, x) = generate (prompt_of (recall c new_id s) context_text message) s.external in
      reply_generated c (citation ∷ citations) r (record s { external = x })

  abbrev pub answer_retrieved :
      Conversation
      → ℕ
      → Text
      → Result RetrieverError (List (RetrievedChunk S))
      → ChatStore X
      → Result ServiceError ChatResponse × ChatStore X
  answer_retrieved c new_id message (err e) s = (err retrieval_failed, s)
  answer_retrieved c new_id message (ok chunks) s =
      let context = build settings.context_builder chunks in
      answer_from c new_id message context.text context.citations s

  -- The retrieval for a message.
  unfoldable pub retrieve_for :
      Conversation → Text → Exec X RetrieverError (List (RetrievedChunk S))
  unfolding retrieve_dense
  retrieve_for c message =
      retrieve_dense floats service c.knowledge_base_id message settings.chat_retrieval_top_k
        settings.retrieval_score_threshold

  -- The message, stored and committed before anything else happens.
  unfoldable pub store_question : Conversation → Text → ChatStore X → Message × ChatStore X
  unfolding create_message touch
  store_question c message s =
      let (user_message, s1) = create_message c.id "user" message [] s in
      (user_message, (touch c s1).1)

  unfoldable pub chat_in :
      Conversation → Text → ChatStore X → Result ServiceError ChatResponse × ChatStore X
  unfolding store_question retrieve_for answer_from build
  chat_in c message s =
      let (user_message, s1) = store_question c message s in
      let (r, x) = retrieve_for c message s1.external in
      answer_retrieved c user_message.id message r (record s1 { external = x })

  abbrev pub chat_found :
      Result ServiceError Conversation
      → Text
      → ChatStore X
      → Result ServiceError ChatResponse × ChatStore X
  chat_found (err e) message s = (err e, s)
  chat_found (ok c) message s = chat_in c message s

  -- `chat` and `_chat`
  unfoldable pub chat : ℕ → ℕ → Text → ChatStore X → Result ServiceError ChatResponse × ChatStore X
  unfolding get_conversation chat_in
  chat user_id conversation_id message s =
      chat_found (get_conversation user_id conversation_id s) message s
