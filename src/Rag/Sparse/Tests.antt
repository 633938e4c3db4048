-- ===== src/Rag/Sparse/Tests.antt =====
-- A sparse retrieval over a small table.
use ai_agent_hub.Common.{ℕ, ◌+◌, ◌≡◌, refl, true, false, some, List, [], ◌∷◌, ◌==◌, text_eq}
use ai_agent_hub.Common.Int.{pos}
use ai_agent_hub.Common.Result.{ok}
use ai_agent_hub.Common.Text.{codes, strip}
use ai_agent_hub.Rag.Contracts.{RetrievedChunk}
use ai_agent_hub.Rag.Fusion.Samples.{numbers, chunk}
use ai_agent_hub.Rag.Sparse.{SearchRow, FullTextSearch, retrieve_sparse}
use ai_agent_hub.Rag.Sparse.Found.{IsFound, retrieve_sparse-IsFound}

-- The last two rows are of another base and of an unfinished document.
abbrev table : List (SearchRow ℕ)
table =
    (record { knowledge_base_id = 3; is_completed = true; chunk = chunk (codes "c") 0 })
    ∷ (record { knowledge_base_id = 3; is_completed = true; chunk = chunk (codes "b") 0 })
    ∷ (record { knowledge_base_id = 4; is_completed = true; chunk = chunk (codes "a") 0 })
    ∷ (record { knowledge_base_id = 3; is_completed = false; chunk = chunk (codes "a") 0 })
    ∷ []

abbrev search : FullTextSearch ℕ ℕ
search = record {
  joined = λ x. (ok table, x + 1);
  matches = λ text query. text == codes "t";
  rank = λ text query. 9;
}

program : Unit {0}
unfolding retrieve_sparse
program = tt

abbrev found : List (RetrievedChunk ℕ)
found = chunk (codes "b") 9 ∷ chunk (codes "c") 9 ∷ []

finds : (retrieve_sparse numbers search 3 (codes " q ") (pos 5) (some 9) 0).0 ≡ ok found
unfolding program
finds = refl

too_low : (retrieve_sparse numbers search 3 (codes "q") (pos 5) (some 10) 0).0 ≡ ok []
unfolding program
too_low = refl

retrieve_sparse-IsFound_example :
    IsFound numbers search 3 (strip (codes "q")) (pos 5) (some 9) 0 found
retrieve_sparse-IsFound_example =
    retrieve_sparse-IsFound numbers search 3 (codes "q") (pos 5) (some 9) 0 found
      (unfold program in refl)
