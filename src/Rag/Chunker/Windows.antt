-- ===== src/Rag/Chunker/Windows.antt =====
-- What each window of the chunker is, and that its loop ends with the fuel that it is given.
use ai_agent_hub.Common.{
  ℕ, zero, suc, ◌+◌, ◌-◌, ◌≤◌, ◌<◌, min, ◌≡◌, refl, arith, ltb, ltb→lt, ◌==◌, Bool-cases, inl, inr,
  length, slice, All, is_empty, nat_eq,
}
use ai_agent_hub.Rag.Contracts.{ParsedDocument, ParsedPage, Chunk, Uuid}
use ai_agent_hub.Rag.Chunker.{FixedCharacterChunker, IsValid, windows, split_page}

-- A chunk is a non-empty window of at most `chunk_size` characters, and its offsets say where.
pub record IsWindow (self : FixedCharacterChunker) (page : ParsedPage) (c : Chunk) : Type 0 where
  pub nonempty : c.metadata.start_char < c.metadata.end_char
  pub inside : c.metadata.end_char ≤ length page.text
  pub small : c.metadata.end_char ≤ c.metadata.start_char + self.chunk_size
  pub cut : c.text ≡ slice c.metadata.start_char c.metadata.end_char page.text
  pub numbered : c.metadata.page_number ≡ page.page_number

module _ (uuid4 : ℕ → Uuid) (self : FixedCharacterChunker) (document : ParsedDocument)
    (page : ParsedPage) (valid : IsValid self) where
  windows-IsWindow :
      (fuel start n : ℕ) → All (IsWindow self page) (windows uuid4 self document fuel page start n)
  unfolding windows
  windows-IsWindow zero start n = tt
  windows-IsWindow (suc fuel) start n = elim (Bool-cases (ltb start (length page.text))) [
    | inl more ↦ rw more (
        let room = ltb→lt start (length page.text) more in
        (
          record {
            nonempty = omega arith;
            inside = omega arith;
            small = omega arith;
            cut = refl;
            numbered = refl;
          },
          elim (Bool-cases (min (start + self.chunk_size) (length page.text) == length page.text)) [
            | inl last ↦ rw last tt
            | inr next ↦ rw next (windows-IsWindow fuel _ _)
          ],
        ))
    | inr done ↦ rw done tt
  ]

  -- More fuel than characters left changes nothing.
  windows_fuel :
      (fuel more start n : ℕ)
      → length page.text ≤ fuel + start
      → windows uuid4 self document (fuel + more) page start n
        ≡ windows uuid4 self document fuel page start n
  unfolding windows
  windows_fuel zero zero start n h = refl
  windows_fuel zero (suc more) start n h = ground arith
  windows_fuel (suc fuel) more start n h =
      let e : suc fuel + more ≡ suc (fuel + more) = omega arith in
      rw e (
        ground (
          arith,
          windows_fuel fuel more
              (min (start + self.chunk_size) (length page.text) - self.chunk_overlap) (n + 1),
        ))

  -- Every chunk of a page is a non-empty window of it, at most `chunk_size` characters long.
  pub split_page-IsWindow :
      (n : ℕ) → All (IsWindow self page) (split_page uuid4 self document page n)
  unfolding split_page
  split_page-IsWindow n = elim (Bool-cases (is_empty page.text)) [
    | inl none ↦ rw none tt
    | inr some ↦ rw some (windows-IsWindow (length page.text) 0 n)
  ]

  -- The loop of a page ends before its fuel does: any fuel beyond the length gives the same chunks.
  pub split_page_fuel :
      (fuel n : ℕ)
      → length page.text ≤ fuel
      → windows uuid4 self document fuel page 0 n
        ≡ windows uuid4 self document (length page.text) page 0 n
  split_page_fuel fuel n h =
      let e : fuel ≡ length page.text + (fuel - length page.text) = omega arith in
      rw e (windows_fuel (length page.text) (fuel - length page.text) 0 n (omega arith))
