-- ===== src/Services/Chat/Answered.antt =====
-- How a chat ends.
use ai_agent_hub.Common.{
  ℕ, ◌≡◌, refl, ap, true, false, Option, none, some, List, [], ◌∷◌, ◌++◌, Bool-cases, inl, inr, All,
}
use ai_agent_hub.Common.Exec.{Exec}
use ai_agent_hub.Common.Result.{Result, ok, err}
use ai_agent_hub.Common.Text.{Text, strip, is_blank}
use ai_agent_hub.Rag.Contracts.{RetrievedChunk}
use ai_agent_hub.Rag.Context.{Citation, ContextResult, build}
use ai_agent_hub.Rag.Context.Cited.{IsCited, build-IsCited}
use ai_agent_hub.Rag.Fusion.{Floats}
use ai_agent_hub.Rag.Retrievers.{RetrieverError, VectorSearch}
use ai_agent_hub.Services.Store.{ServiceError}
use ai_agent_hub.Services.Chat.{
  Conversation, Message, ChatStore, LlmMessage, LlmFailure, ChatSettings, ChatResponse,
  no_context_answer, unknown_conversation, retrieval_failed, empty_response, llm_raises,
  owned_conversation, create_message, found_or_raise, get_conversation, touch,
}
use ai_agent_hub.Services.Chat.Conversing.{
  recall, prompt_of, reply, reply_generated, answer_from, answer_retrieved, retrieve_for,
  store_question, chat_in, chat_found, chat,
}

module _ {X S Vector : Type 0} (floats : Floats S) (service : VectorSearch X S Vector)
    (generate : List LlmMessage → Exec X LlmFailure Text) (settings : ChatSettings S) where
  -- The message of the user, as it is stored.
  abbrev pub question : Conversation → Text → ChatStore X → Message
  question c message s = (store_question floats service generate settings c message s).0

  abbrev pub retrieval :
      Conversation → Text → ChatStore X → Result RetrieverError (List (RetrievedChunk S)) × X
  retrieval c message s = retrieve_for floats service generate settings c message s.external

  abbrev pub context_of : List (RetrievedChunk S) → ContextResult
  context_of chunks = build settings.context_builder chunks

  -- What the language model gives for the context, the history and the message.
  abbrev pub generated :
      Conversation → Text → List (RetrievedChunk S) → ChatStore X → Result LlmFailure Text × X
  generated c message chunks s =
      generate
        (prompt_of floats service generate settings
          (recall floats service generate settings c (question c message s).id
            (store_question floats service generate settings c message s).1)
          (context_of chunks).text message)
        (retrieval c message s).1

  -- Why a chat in the conversation raises.
  pub data Refused (c : Conversation) (message : Text) (s : ChatStore X)
      : ServiceError → X → Type 0 where
    not_retrieved :
        (e : RetrieverError) (x : X)
        → retrieval c message s ≡ (err e, x)
        → Refused c message s retrieval_failed x
    not_generated :
        (chunks : List (RetrievedChunk S)) (failure : LlmFailure) (x : X)
        → (retrieval c message s).0 ≡ ok chunks
        → generated c message chunks s ≡ (err failure, x)
        → Refused c message s (llm_raises failure) x
    generated_blank :
        (chunks : List (RetrievedChunk S)) (content : Text) (x : X)
        → (retrieval c message s).0 ≡ ok chunks
        → generated c message chunks s ≡ (ok content, x)
        → is_blank content ≡ true
        → Refused c message s empty_response x

  -- Where the text of an answer comes from.
  pub data Answers (c : Conversation) (message : Text) (s : ChatStore X)
      (chunks : List (RetrievedChunk S)) : List Citation → Text → X → Type 0 where
    unconfirmed : Answers c message s chunks [] no_context_answer (retrieval c message s).1
    from_model :
        (citation : Citation) (citations : List Citation) (content : Text) (x : X)
        → generated c message chunks s ≡ (ok content, x)
        → is_blank content ≡ false
        → Answers c message s chunks (citation ∷ citations) (strip content) x

  -- What a chat in the conversation `c` leaves, and returns.
  pub record Answered (c : Conversation) (message : Text) (s : ChatStore X)
      (response : ChatResponse) (after : ChatStore X) : Type 0 where
    pub chunks : List (RetrievedChunk S)
    pub retrieved : (retrieval c message s).0 ≡ ok chunks
    pub citations : response.citations ≡ (context_of chunks).citations
    pub cited : All (IsCited chunks) response.citations
    pub kept : response.message.citations ≡ response.citations
    pub role : response.message.role ≡ "assistant"
    pub place : response.message.conversation_id ≡ c.id
    pub source :
        Answers c message s chunks response.citations response.message.content after.external
    pub stored : after.messages ≡ (s.messages ++ question c message s ∷ []) ++ response.message ∷ []

  pub data Chatted (user_id conversation_id : ℕ) (message : Text) (s : ChatStore X)
      (p : Result ServiceError ChatResponse × ChatStore X) : Type 0 where
    unknown :
        owned_conversation conversation_id user_id s ≡ none
        → p ≡ (err unknown_conversation, s)
        → Chatted user_id conversation_id message s p
    refused :
        (c : Conversation) (e : ServiceError)
        → owned_conversation conversation_id user_id s ≡ some c
        → p.0 ≡ err e
        → Refused c message s e p.1.external
        → p.1.messages ≡ s.messages ++ question c message s ∷ []
        → Chatted user_id conversation_id message s p
    answered :
        (c : Conversation) (response : ChatResponse)
        → owned_conversation conversation_id user_id s ≡ some c
        → p.0 ≡ ok response
        → Answered c message s response p.1
        → Chatted user_id conversation_id message s p

  -- The same in a conversation that is at hand.
  data ChattedIn (c : Conversation) (message : Text) (s : ChatStore X)
      (p : Result ServiceError ChatResponse × ChatStore X) : Type 0 where
    refused_in :
        (e : ServiceError)
        → p.0 ≡ err e
        → Refused c message s e p.1.external
        → p.1.messages ≡ s.messages ++ question c message s ∷ []
        → ChattedIn c message s p
    answered_in :
        (response : ChatResponse)
        → p.0 ≡ ok response
        → Answered c message s response p.1
        → ChattedIn c message s p

  module _ (c : Conversation) (message : Text) (s : ChatStore X) where
    abbrev asked : X → ChatStore X
    asked x = record (store_question floats service generate settings c message s).1 {
      external = x;
    }

    asked-messages : (x : X) → (asked x).messages ≡ s.messages ++ question c message s ∷ []
    unfolding store_question create_message touch
    asked-messages x = refl

    module _ (chunks : List (RetrievedChunk S))
        (retrieved : (retrieval c message s).0 ≡ ok chunks) where
      reply-ChattedIn :
          (citations : List Citation) (content : Text) (x : X)
          → citations ≡ (context_of chunks).citations
          → Answers c message s chunks citations content x
          → ChattedIn c message s
              (reply floats service generate settings c content citations (asked x))
      unfolding reply create_message touch store_question
      reply-ChattedIn citations content x same source = answered_in _ refl (record {
        chunks = chunks;
        retrieved = retrieved;
        citations = same;
        cited = rw same (build-IsCited settings.context_builder chunks);
        kept = refl;
        role = refl;
        place = refl;
        source = source;
        stored = refl;
      })

      generated-ChattedIn :
          (citation : Citation) (citations : List Citation) (r : Result LlmFailure Text) (x : X)
          → (citation ∷ citations) ≡ (context_of chunks).citations
          → generated c message chunks s ≡ (r, x)
          → ChattedIn c message s (
              reply_generated floats service generate settings c (citation ∷ citations) r (asked x))
      generated-ChattedIn citation citations (err failure) x same e =
          refused_in (llm_raises failure) refl (not_generated chunks failure x retrieved e)
            (asked-messages x)
      generated-ChattedIn citation citations (ok content) x same e =
          elim (Bool-cases (is_blank content)) [
            | inl blank ↦ rw blank (
                refused_in empty_response refl (generated_blank chunks content x retrieved e blank)
                  (asked-messages x))
            | inr visible ↦ rw visible (
                reply-ChattedIn (citation ∷ citations) (strip content) x same
                  (from_model citation citations content x e visible))
          ]

      answer_from-ChattedIn :
          (citations : List Citation)
          → citations ≡ (context_of chunks).citations
          → ChattedIn c message s (
              answer_from floats service generate settings c
                (question c message s).id
                message
                (context_of chunks).text
                citations
                (asked (retrieval c message s).1))
      unfolding answer_from
      answer_from-ChattedIn [] same =
          reply-ChattedIn [] no_context_answer (retrieval c message s).1 same unconfirmed
      answer_from-ChattedIn (citation ∷ citations) same =
          generated-ChattedIn citation citations (generated c message chunks s).0
            (generated c message chunks s).1 same refl

    retrieved-ChattedIn :
        (r : Result RetrieverError (List (RetrievedChunk S))) (x : X)
        → retrieval c message s ≡ (r, x)
        → ChattedIn c message s (
            answer_retrieved floats service generate settings c
              (question c message s).id
              message
              r
              (asked x))
    retrieved-ChattedIn (err e) x same =
        refused_in retrieval_failed refl (not_retrieved e x same) (asked-messages x)
    retrieved-ChattedIn (ok chunks) x same =
        let place : (retrieval c message s).1 ≡ x = ap (λ p. p.1) same in
        rw (← place)
          (answer_from-ChattedIn chunks (ap (λ p. p.0) same) (context_of chunks).citations refl)

    chat_in-ChattedIn : ChattedIn c message s (chat_in floats service generate settings c message s)
    unfolding chat_in
    chat_in-ChattedIn = retrieved-ChattedIn (retrieval c message s).0 (retrieval c message s).1 refl

  chat_found-Chatted :
      (user_id conversation_id : ℕ) (message : Text) (s : ChatStore X) (found : Option Conversation)
      → owned_conversation conversation_id user_id s ≡ found
      → Chatted user_id conversation_id message s
          (chat_found floats service generate settings (found_or_raise found) message s)
  chat_found-Chatted user_id conversation_id message s none e = unknown e refl
  chat_found-Chatted user_id conversation_id message s (some c) e =
      by_end _ (chat_in-ChattedIn c message s)
    where
      by_end :
          (p : Result ServiceError ChatResponse × ChatStore X)
          → ChattedIn c message s p
          → Chatted user_id conversation_id message s p
      by_end p (refused_in error h why stored) = refused c error e h why stored
      by_end p (answered_in response h answer) = answered c response e h answer

  -- A chat ends in one of three ways. The user does not own the conversation: CONVERSATION_NOT_FOUND,
  -- and nothing changes. Or the retrieval raises, the model raises, or it gives a blank text: the
  -- error that belongs to it, and only the question has been added to the messages. Or there is an
  -- answer, and question and answer have been added: its citations are those of the context of the
  -- chunks that were retrieved, each names one of these chunks, and without a citation the answer
  -- is the fixed one and the model has not been called; else it is the stripped text of the model,
  -- which was asked with the context, the history and the question.
  pub chat-Chatted :
      (user_id conversation_id : ℕ) (message : Text) (s : ChatStore X)
      → Chatted user_id conversation_id message s
          (chat floats service generate settings user_id conversation_id message s)
  unfolding chat get_conversation
  chat-Chatted user_id conversation_id message s =
      chat_found-Chatted user_id conversation_id message s
        (owned_conversation conversation_id user_id s) refl
