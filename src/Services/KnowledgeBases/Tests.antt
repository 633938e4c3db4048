-- ===== src/Services/KnowledgeBases/Tests.antt =====
-- Two users with a knowledge base each.
use ai_agent_hub.Common.{ℕ, ◌≡◌, refl, none, some, List, [], ◌∷◌}
use ai_agent_hub.Common.Result.{ok, err}
use ai_agent_hub.Services.KnowledgeBases.{
  KnowledgeBase, KnowledgeBaseUpdate, integrity_error, not_found, list_owned, update_knowledge_base,
  delete_knowledge_base,
}
use ai_agent_hub.Services.KnowledgeBases.Isolation.{updates, list_owned-UserStep}

abbrev row : ℕ → ℕ → KnowledgeBase
row id user = record { id = id; user_id = user; name = "base"; description = none }

abbrev rows : List KnowledgeBase
rows = row 1 7 ∷ row 2 8 ∷ []

abbrev renaming : KnowledgeBaseUpdate
renaming = record { name = some (some "notes"); description = none }

program : Unit {0}
unfolding list_owned update_knowledge_base delete_knowledge_base
program = tt

renames :
    (update_knowledge_base 7 1 renaming rows).1 ≡ record (row 1 7) { name = "notes" } ∷ row 2 8 ∷ []
unfolding program
renames = refl

other_user_finds_nothing : update_knowledge_base 8 1 renaming rows ≡ (err not_found, rows)
unfolding program
other_user_finds_nothing = refl

null_name_is_refused :
    update_knowledge_base 7 1 (record renaming { name = some none }) rows
    ≡ (err integrity_error, rows)
unfolding program
null_name_is_refused = refl

deletes_own : delete_knowledge_base 7 1 rows ≡ (ok tt, row 2 8 ∷ [])
unfolding program
deletes_own = refl

list_owned-UserStep_example :
    list_owned 8 (update_knowledge_base 7 1 renaming rows).1 ≡ list_owned 8 rows
list_owned-UserStep_example =
    list_owned-UserStep 7 rows 8 refl ((refl, tt), (tt, tt))
      (update_knowledge_base 7 1 renaming rows).1 (updates 1 renaming)
