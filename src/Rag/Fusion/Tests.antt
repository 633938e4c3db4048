-- ===== src/Rag/Fusion/Tests.antt =====
-- Fusions of small lists, with whole numbers for scores.
use ai_agent_hub.Common.{ℕ, ◌≡◌, refl, true, false, List, [], ◌∷◌, arith, ltb, nat_beq, map}
use ai_agent_hub.Common.Int.{pos}
use ai_agent_hub.Common.Result.{ok, err}
use ai_agent_hub.Common.Text.{Text, codes}
use ai_agent_hub.Rag.Fusion.Samples.{numbers, fusion, dense, sparse}
use ai_agent_hub.Rag.Fusion.{FusedRetrieval, fuse}
use ai_agent_hub.Rag.Fusion.Ordered.{Falling, fuse-Sorted}

less_asym : (a b : ℕ) → ltb a b ≡ true → ltb b a ≡ false
less_asym a b h = ground arith

equal_sym : (a b : ℕ) → nat_beq a b ≡ nat_beq b a
equal_sym a b = ground arith

program : Unit {0}
unfolding fuse
program = tt

abbrev items : List (FusedRetrieval ℕ)
unfolding program
items = elim (fuse numbers fusion dense sparse (pos 2)) [ ok found ↦ found | err e ↦ [] ]

fused : fuse numbers fusion dense sparse (pos 2) ≡ ok items
unfolding program
fused = refl

best_first :
    map {B = Text × ℕ} (λ i. (i.chunk.chunk_id, i.fusion_score)) items
    ≡ (codes "b", 3251) ∷ (codes "a", 1639) ∷ []
unfolding program
best_first = refl

fuse-Sorted_example : Falling numbers items
fuse-Sorted_example =
    fuse-Sorted numbers less_asym equal_sym fusion dense sparse (pos 2) items fused
