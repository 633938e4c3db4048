-- ===== src/Memory/ShortTerm/Select.antt =====
-- `select`: the newest contiguous window within the limits.
use mathlib.Core.List.{reverse-append, reverse-reverse, reverse-cons}
use ai_agent_hub.Common.{
  ℕ, suc, ◌+◌, ◌-◌, ◌≤◌, ◌<◌, ◌≡◌, refl, sym, ap, ◌∙◌, subst, ◌⊎◌, inl, inr, List, [], ◌∷◌, ◌++◌,
  reverse, append_assoc, arith, length, take, drop, take_last, length-append, length-drop,
  length-reverse, take-append-drop, drop-append_length, drop-append_le,
}
use ai_agent_hub.Memory.ShortTerm.{
  MemoryMessage, ShortTermMemory, IsValid, estimate_tokens, truncate, select_loop, select,
}
use ai_agent_hub.Memory.ShortTerm.Window.{
  cost, Source, whole, cut, Stops, Selected, select_loop-Selected,
}

module _ (self : ShortTermMemory) where
  cost-append : (xs ys : List MemoryMessage) → cost self (xs ++ ys) ≡ cost self xs + cost self ys
  cost-append [] ys = omega arith
  cost-append (x ∷ xs) ys = omega (arith, cost-append xs ys)

  cost-reverse : (xs : List MemoryMessage) → cost self (reverse xs) ≡ cost self xs
  cost-reverse [] = refl
  cost-reverse (x ∷ xs) =
      rw reverse-cons (omega (arith, cost-append (reverse xs) (x ∷ []), cost-reverse xs))

  length-source : {xs ys : List MemoryMessage} → Source self xs ys → length ys ≡ length xs
  length-source (whole xs) = refl
  length-source (cut m long) = refl

module _ (self : ShortTermMemory) (messages : List MemoryMessage) where
  -- What the messages of a window are: the last messages in their order, or the last one cut.
  abbrev pub IsNewest : List MemoryMessage → Type 0
  IsNewest window =
      ((older : List MemoryMessage) × (messages ≡ older ++ window))
      ⊎ ((older : List MemoryMessage) × (m : MemoryMessage) × (messages ≡ older ++ m ∷ [])
          × (self.token_budget < estimate_tokens self m.content)
          × (window ≡ record m { content = truncate self m.content self.token_budget } ∷ []))

module _ (self : ShortTermMemory) (messages : List MemoryMessage) (valid : IsValid self) where
  abbrev newest : List MemoryMessage
  newest = reverse (take_last self.max_messages messages)

  chosen : Selected self newest (select_loop self newest [] 0)
  chosen = select_loop-Selected self newest valid

  -- The window costs what it reports, which is within the budget, and it has at most
  -- `max_messages` messages.
  pub select_bounds :
      ((select self messages).used_tokens ≤ self.token_budget)
      × ((select self messages).used_tokens ≡ cost self (select self messages).messages)
      × (length (select self messages).messages ≤ self.max_messages)
  unfolding select
  select_bounds =
      let k = chosen in
      (
        k.within,
        k.tokens ∙ sym (cost-reverse self (select_loop self newest [] 0).0),
        omega (
          arith,
          length-reverse (select_loop self newest [] 0).0,
          length-source self k.source,
          ap length k.split,
          length-append k.taken k.left,
          length-reverse (take_last self.max_messages messages),
          length-drop (length messages - self.max_messages) messages,
        ),
      )

  IsNewest-source :
      (older : List MemoryMessage) {taken got : List MemoryMessage}
      → Source self taken got
      → messages ≡ older ++ reverse taken
      → IsNewest self messages (reverse got)
  IsNewest-source older (whole taken) e = inl (older, e)
  IsNewest-source older (cut m long) e = inr (older, m, e, long, refl)

  -- The window is a suffix of the messages in their order, unless the last message alone passes the
  -- budget: then it is that message, cut to the budget.
  pub select-IsNewest : IsNewest self messages (select self messages).messages
  unfolding select
  select-IsNewest =
      let k = chosen in
      let n : ℕ = length messages - self.max_messages in
      let turned : drop n messages ≡ reverse k.left ++ reverse k.taken =
        sym (reverse-reverse (drop n messages))
        ∙ ap reverse k.split
        ∙ reverse-append k.taken k.left in
      IsNewest-source (take n messages ++ reverse k.left) k.source (
        sym (take-append-drop n messages)
        ∙ ap (λ l. take n messages ++ l) turned
        ∙ sym (append_assoc (take n messages) (reverse k.left) (reverse k.taken)))

  -- The window is as long as the limits allow: where it has fewer than `max_messages` messages, the
  -- message before it would pass the budget.
  pub select_maximal :
      (older newer : List MemoryMessage) (m : MemoryMessage)
      → messages ≡ older ++ m ∷ newer
      → length newer ≡ length (select self messages).messages
      → length newer < self.max_messages
      → self.token_budget < (select self messages).used_tokens + estimate_tokens self m.content
  unfolding select
  select_maximal older newer m e same few =
      let k = chosen in
      let n : ℕ = length messages - self.max_messages in
      let len : length messages ≡ length older + suc (length newer) =
        ap length e ∙ length-append older (m ∷ newer) in
      let kept : drop n messages ≡ drop n older ++ m ∷ newer =
        ap (drop n) e ∙ drop-append_le n older (m ∷ newer) (omega arith) in
      let turned : newest ≡ reverse newer ++ m ∷ reverse (drop n older) =
        ap reverse kept
        ∙ reverse-append (drop n older) (m ∷ newer)
        ∙ ap (λ l. l ++ reverse (drop n older)) (reverse-cons m newer)
        ∙ append_assoc (reverse newer) (m ∷ []) (reverse (drop n older)) in
      let sizes : length k.taken ≡ length (reverse newer) = omega (
        arith,
        length-reverse newer,
        length-reverse (select_loop self newest [] 0).0,
        length-source self k.source,
      ) in
      let rest : k.left ≡ m ∷ reverse (drop n older) =
        sym (drop-append_length k.taken k.left)
        ∙ ap (drop (length k.taken)) (sym k.split ∙ turned)
        ∙ ap (λ i. drop i (reverse newer ++ m ∷ reverse (drop n older))) sizes
        ∙ drop-append_length (reverse newer) (m ∷ reverse (drop n older)) in
      subst (Stops self (select_loop self newest [] 0).1) rest k.stops
