-- ===== src/Services/Ingestion/Tests.antt =====
-- A small document is processed, once and twice, and with a pipeline that fails.
use ai_agent_hub.Common.{
  ℕ, ◌+◌, ◌≡◌, refl, Bool, true, false, Option, none, some, [], ◌∷◌, if◌then◌else◌, map, inl,
  length, find,
}
use ai_agent_hub.Common.Result.{Result, ok, err}
use ai_agent_hub.Common.Text.{Text, codes}
use ai_agent_hub.Rag.Contracts.{Chunk}
use ai_agent_hub.Services.Store.{AppError}
use ai_agent_hub.Services.Ingestion.{
  DocumentStatus, Document, Rows, Session, processing_error, Backends, process,
}
use ai_agent_hub.Services.Ingestion.Settled.{Settled, process-Settled}

abbrev document : DocumentStatus → Document
document status = record {
  id = 3;
  user_id = 1;
  knowledge_base_id = 2;
  filename = codes "a.txt";
  content_type = "text/plain";
  size_bytes = 2;
  storage_key = "key";
  status = status;
  chunk_count = 0;
  failure_reason = none;
}

abbrev chunk : Text → Chunk
chunk text = record {
  text = text;
  metadata = record {
    document_id = 3;
    filename = codes "a.txt";
    page_number = 1;
    start_char = 0;
    end_char = 2;
  };
  chunk_id = 9;
}

-- The external state counts the calls.
abbrev backends : Bool → Backends ℕ ℕ
backends broken = record {
  get_object_bytes = λ key n. (ok (104 ∷ 105 ∷ []), n + 1);
  run_pipeline = λ content id name n. (
    if broken
        then err (processing_error (record { code = "EMPTY_DOCUMENT"; message = "no text" }))
        else ok (chunk content ∷ []),
    n + 1,
  );
  delete_document = λ base id n. (ok tt, n + 1);
  embed = λ texts n. (ok (map length texts), n + 1);
  upsert_chunks = λ base chunks vectors n. (ok tt, n + 1);
}

abbrev session : DocumentStatus → Session ℕ
session status =
    let rows : Rows = record {
      knowledge_bases = record { id = 2; user_id = 1 } ∷ [];
      documents = document status ∷ [];
      chunks = [];
    } in
    record { committed = rows; working = rows; external = 0 }

program : Unit {0}
unfolding process find
program = tt

abbrev status_after : Result AppError Document × Session ℕ → Option DocumentStatus
status_after (r, s) = elim s.committed.documents [ [] ↦ none | d ∷ ds ↦ some d.status ]

completes :
    status_after (process (backends false) 1 2 3 (session DocumentStatus.uploaded))
    ≡ some DocumentStatus.completed
unfolding program
completes = refl

fails :
    status_after (process (backends true) 1 2 3 (session DocumentStatus.uploaded))
    ≡ some DocumentStatus.failed
unfolding program
fails = refl

process-Settled_example :
    Settled
      (backends false)
      1
      2
      3
      (document DocumentStatus.uploaded)
      (session DocumentStatus.uploaded)
      (process (backends false) 1 2 3 (session DocumentStatus.uploaded))
unfolding program
process-Settled_example =
    process-Settled (backends false) 1 2 3 (record { id = 2; user_id = 1 })
      (document DocumentStatus.uploaded) (session DocumentStatus.uploaded) refl refl (inl refl)
