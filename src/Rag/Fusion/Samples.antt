-- ===== src/Rag/Fusion/Samples.antt =====
-- Whole numbers for scores, and small lists, for the tests.
use ai_agent_hub.Common.{ℕ, ◌+◌, ◌-◌, ◌/◌, true, List, [], ◌∷◌, ltb, leb, nat_beq}
use ai_agent_hub.Common.Text.{Text, codes}
use ai_agent_hub.Rag.Contracts.{RetrievedChunk}
use ai_agent_hub.Rag.Fusion.{Floats, RrFusion}

abbrev pub numbers : Floats ℕ
numbers = record {
  add = λ a b. a + b;
  sub = λ a b. a - b;
  div = λ a b. a / b;
  less = ltb;
  equal = nat_beq;
  at_most = leb;
  negate = λ a. 0 - a;
  is_finite = λ a. true;
  of_nat = λ n. n;
}

abbrev pub fusion : RrFusion ℕ
fusion = record { rrf_k = 60; dense_weight = 100000; sparse_weight = 100000 }

abbrev pub chunk : Text → ℕ → RetrievedChunk ℕ
chunk id score = record {
  chunk_id = id;
  document_id = codes "d";
  filename = codes "f";
  page_number = 1;
  text = codes "t";
  score = score;
  start_char = 0;
  end_char = 1;
}

abbrev pub dense : List (RetrievedChunk ℕ)
dense = chunk (codes "a") 9 ∷ chunk (codes "b") 8 ∷ chunk (codes "a") 7 ∷ []

abbrev pub sparse : List (RetrievedChunk ℕ)
sparse = chunk (codes "b") 5 ∷ chunk (codes "c") 4 ∷ []
