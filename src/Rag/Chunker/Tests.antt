-- ===== src/Rag/Chunker/Tests.antt =====
-- The chunker on small inputs.
use ai_agent_hub.Common.{ℕ, ◌+◌, ◌≡◌, refl, ◌∷◌, [], arith, All, map}
use ai_agent_hub.Common.Int.{pos}
use ai_agent_hub.Common.Result.{err}
use ai_agent_hub.Common.Text.{Text, codes}
use ai_agent_hub.Rag.Contracts.{ParsedDocument, ParsedPage}
use ai_agent_hub.Rag.Chunker.{FixedCharacterChunker, IsValid, init, windows, split_page, split}
use ai_agent_hub.Rag.Chunker.Windows.{IsWindow, split_page-IsWindow, split_page_fuel}
use ai_agent_hub.Rag.Chunker.Coverage.{rebuild, rebuild-split_page}

abbrev chunker : FixedCharacterChunker
chunker = record { chunk_size = 4; chunk_overlap = 1 }

abbrev page : ParsedPage
page = record { page_number = 1; text = codes "abcdefghij" }

abbrev document : ParsedDocument
document = record {
  document_id = 7;
  filename = codes "a.txt";
  content_type = "text/plain";
  pages =
      page
      ∷ record { page_number = 2; text = [] }
      ∷ record { page_number = 3; text = codes "xy" }
      ∷ [];
}

abbrev uuid4 : ℕ → ℕ
uuid4 n = n + 100

chunker-IsValid : IsValid chunker
chunker-IsValid = omega arith

split_lem :
    map {B = Text × ℕ × ℕ}
      (λ c. (c.text, c.metadata.start_char, c.chunk_id))
      (split uuid4 chunker document)
    ≡ (codes "abcd", 0, 100)
      ∷ (codes "defg", 3, 101)
      ∷ (codes "ghij", 6, 102)
      ∷ (codes "xy", 0, 103)
      ∷ []
unfolding split
split_lem = refl

init_refuses :
    init (pos 3) (pos 3)
    ≡ err (record {
      code = "INVALID_CHUNK_OVERLAP";
      message = "chunk_overlap must be non-negative and smaller than chunk_size";
    })
unfolding init
init_refuses = refl

split_page-IsWindow_example : All (IsWindow chunker page) (split_page uuid4 chunker document page 0)
split_page-IsWindow_example = split_page-IsWindow uuid4 chunker document page chunker-IsValid 0

split_page_fuel_example :
    windows uuid4 chunker document 25 page 0 0 ≡ windows uuid4 chunker document 10 page 0 0
split_page_fuel_example =
    split_page_fuel uuid4 chunker document page chunker-IsValid 25 0 (omega arith)

rebuild-split_page_example :
    rebuild 1 (split_page uuid4 chunker document page 0) ≡ codes "abcdefghij"
rebuild-split_page_example = rebuild-split_page uuid4 chunker document page chunker-IsValid 0
