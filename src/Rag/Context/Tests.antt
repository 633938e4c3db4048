-- ===== src/Rag/Context/Tests.antt =====
-- The context builder on small inputs.
use ai_agent_hub.Common.{ℕ, ◌≤◌, ◌<◌, ◌≡◌, refl, true, List, [], ◌∷◌, map, max, arith}
use ai_agent_hub.Common.Ceil.{ceil_div}
use ai_agent_hub.Common.Int.{pos, negsuc}
use ai_agent_hub.Common.Result.{err}
use ai_agent_hub.Common.Text.{Text, codes, join, is_blank, decimal}
use ai_agent_hub.Rag.Contracts.{RetrievedChunk}
use ai_agent_hub.Rag.Context.{ContextBuilder, IsValid, init, estimate_tokens, entry_of, build}
use ai_agent_hub.Rag.Context.Built.{Numbered}
use ai_agent_hub.Rag.Context.Budget.{build-citations, estimate-build-le_budget}
use ai_agent_hub.Rag.Context.Complete.{visible, shown, build_complete}

abbrev builder : ContextBuilder
builder = record { token_budget = 20; chars_per_token = 4 }

builder-IsValid : IsValid builder
builder-IsValid = omega arith

abbrev chunk : Text → Text → RetrievedChunk ℕ
chunk chunk_id text = record {
  chunk_id = chunk_id;
  document_id = codes "d";
  filename = codes "f.md";
  page_number = 2;
  text = text;
  score = 1;
  start_char = 0;
  end_char = 9;
}

abbrev chunks : List (RetrievedChunk ℕ)
chunks =
    chunk (codes "a") (codes " one ")
    ∷ chunk (codes "b") (codes "  ")
    ∷ chunk (codes "c") (codes "two")
    ∷ []

program : Unit {0}
unfolding build ceil_div join is_blank decimal
program = tt

build-text : (build builder chunks).text ≡ codes "[1] f.md (page 2)\none\n\n[2] f.md (page 2)\ntwo"
unfolding program
build-text = refl

build_cut : (build (record builder { token_budget = 7 }) chunks).truncated ≡ true
unfolding program
build_cut = refl

init_refuses : init (negsuc 4) (pos 4) ≡ err "token_budget must be greater than zero"
unfolding init
init_refuses = refl

build-citations_example :
    ((build builder chunks).used_tokens ≤ 20)
    × ((build builder chunks).text
        ≡ join (codes "\n\n") (map entry_of (build builder chunks).citations))
    × Numbered 1 (build builder chunks).citations
build-citations_example = build-citations builder chunks

estimate-build-le_budget_example :
    (estimate_tokens builder (build builder chunks).text ≤ max 1 (build builder chunks).used_tokens)
    × (estimate_tokens builder (build builder chunks).text ≤ 20)
estimate-build-le_budget_example =
    estimate-build-le_budget builder (omega arith) chunks builder-IsValid

build_complete_example : map shown (build builder chunks).citations ≡ visible chunks
unfolding program
build_complete_example = build_complete builder chunks refl

-- With one character to a token the separators cost two tokens and one is counted.
abbrev narrow : ContextBuilder
narrow = record { token_budget = 43; chars_per_token = 1 }

narrow_over_budget : 43 < estimate_tokens narrow (build narrow chunks).text
unfolding program
narrow_over_budget = omega arith
