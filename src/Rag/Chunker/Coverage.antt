-- ===== src/Rag/Chunker/Coverage.antt =====
-- The chunks of a page hold the page: nothing is lost or reordered, and neighbours share exactly
-- `chunk_overlap` characters.
use ai_agent_hub.Common.{
  ℕ, zero, suc, ◌+◌, ◌-◌, ◌≤◌, ◌<◌, min, ◌≡◌, sym, ap, ◌∙◌, List, [], ◌∷◌, ◌++◌, arith, lt→ltb,
  ◌==◌, Bool-cases, inl, inr, length, drop, slice, nat_eq, slice-append-drop, drop_all, empty_cases,
  drop-slice-append_drop, if◌then◌else◌,
}
use ai_agent_hub.Common.Text.{Text}
use ai_agent_hub.Rag.Contracts.{ParsedDocument, ParsedPage, Chunk, Uuid}
use ai_agent_hub.Rag.Chunker.{FixedCharacterChunker, IsValid, windows, split_page}

-- The texts of the chunks, each without the characters that it shares with the one before.
abbrev tails : ℕ → List Chunk → Text
tails overlap [] = []
tails overlap (c ∷ cs) = drop overlap c.text ++ tails overlap cs

abbrev pub rebuild : ℕ → List Chunk → Text
rebuild overlap [] = []
rebuild overlap (c ∷ cs) = c.text ++ tails overlap cs

-- What follows a window that ends at `end`, given what the chunks of the next round are.
tails_after :
    (o end : ℕ) (t : Text) (cs : List Chunk)
    → end ≤ length t
    → (end < length t → tails o cs ≡ drop end t)
    → tails o (if end == length t then [] else cs) ≡ drop end t
tails_after o end t cs h k = elim (Bool-cases (end == length t)) [
  | inl last ↦ rw last (sym (drop_all end t (ground arith)))
  | inr next ↦ rw next (k (ground arith))
]

module _ (uuid4 : ℕ → Uuid) (self : FixedCharacterChunker) (document : ParsedDocument)
    (page : ParsedPage) (valid : IsValid self) where
  tails-windows :
      (fuel start n : ℕ)
      → length page.text ≤ fuel + start
      → start + self.chunk_overlap < length page.text
      → tails self.chunk_overlap (windows uuid4 self document fuel page start n)
        ≡ drop (start + self.chunk_overlap) page.text
  unfolding windows
  tails-windows zero start n h room = absurd (omega arith)
  tails-windows (suc fuel) start n h room =
      let end : ℕ = min (start + self.chunk_size) (length page.text) in
      let after =
        tails_after self.chunk_overlap end page.text
          (windows uuid4 self document fuel page (end - self.chunk_overlap) (n + 1)) (omega arith)
          (λ more.
            tails-windows fuel (end - self.chunk_overlap) (n + 1) (omega arith) (omega arith)
            ∙ ap (λ k. drop k page.text) (omega arith)) in
      rw (lt→ltb start (length page.text) (omega arith)) (
        ap (λ l. drop self.chunk_overlap (slice start end page.text) ++ l) after
        ∙ drop-slice-append_drop self.chunk_overlap start end page.text (omega arith))

  rebuild-windows :
      (fuel n : ℕ)
      → 0 < length page.text
      → length page.text ≤ suc fuel
      → rebuild self.chunk_overlap (windows uuid4 self document (suc fuel) page 0 n) ≡ page.text
  unfolding windows
  rebuild-windows fuel n some h =
      let end : ℕ = min (0 + self.chunk_size) (length page.text) in
      let after =
        tails_after self.chunk_overlap end page.text
          (windows uuid4 self document fuel page (end - self.chunk_overlap) (n + 1)) (omega arith)
          (λ more.
            tails-windows fuel (end - self.chunk_overlap) (n + 1) (omega arith) (omega arith)
            ∙ ap (λ k. drop k page.text) (omega arith)) in
      rw (lt→ltb 0 (length page.text) some) (
        ap (λ l. slice 0 end page.text ++ l) after
        ∙ slice-append-drop 0 end page.text (omega arith))

  -- Joining the chunks of a page, each without the `chunk_overlap` characters that it shares with
  -- the chunk before it, gives the text of the page.
  pub rebuild-split_page :
      (n : ℕ) → rebuild self.chunk_overlap (split_page uuid4 self document page n) ≡ page.text
  unfolding split_page
  rebuild-split_page n = elim (empty_cases page.text) [
    | inl (none, e) ↦ rw none (sym e)
    | inr (some, e) ↦
        rw (some, e) (rebuild-windows (length page.text - 1) n (omega arith) (omega arith))
  ]
