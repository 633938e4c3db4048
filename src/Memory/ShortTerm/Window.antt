-- ===== src/Memory/ShortTerm/Window.antt =====
-- What the selection loop keeps: a prefix of the reversed messages that fits, and no shorter one.
use ai_agent_hub.Common.{
  ℕ, ◌+◌, ◌*◌, ◌≤◌, ◌<◌, ◌≡◌, refl, sym, ap, ◌∙◌, subst, List, [], ◌∷◌, ◌++◌, append-nil,
  append_assoc, arith, ltb, ltb→lt, lt→ltb, Bool-cases, inl, inr, length, take, length-take,
}
use ai_agent_hub.Common.Ceil.{ceil_div-mul, lt-mul_of_lt-ceil_div}
use ai_agent_hub.Common.Text.{Text}
use ai_agent_hub.Memory.ShortTerm.{
  MemoryMessage, ShortTermMemory, IsValid, estimate_tokens, truncate, admit, select_loop,
}

module _ (self : ShortTermMemory) where
  abbrev pub cost : List MemoryMessage → ℕ
  cost [] = 0
  cost (m ∷ ms) = estimate_tokens self m.content + cost ms

  -- The loop stopped here: nothing is left, or the next message is too long.
  abbrev pub Stops : ℕ → List MemoryMessage → Type 0
  Stops used [] = Unit
  Stops used (m ∷ ms) = self.token_budget < used + estimate_tokens self m.content

  record Kept (rest selected : List MemoryMessage) (used : ℕ) (r : List MemoryMessage × ℕ)
      : Type 0 where
    pub taken : List MemoryMessage
    pub left : List MemoryMessage
    pub split : rest ≡ taken ++ left
    pub messages : r.0 ≡ selected ++ taken
    pub tokens : r.1 ≡ used + cost taken
    pub within : r.1 ≤ self.token_budget
    pub stops : Stops r.1 left

  pub estimate_pos : (text : Text) → 0 < estimate_tokens self text
  unfolding estimate_tokens
  estimate_pos text = omega arith

  estimate-truncate :
      (text : Text)
      → IsValid self
      → self.token_budget < estimate_tokens self text
      → estimate_tokens self (truncate self text self.token_budget) ≡ self.token_budget
  unfolding estimate_tokens truncate
  estimate-truncate text v h =
      let long =
        lt-mul_of_lt-ceil_div v.some_chars (length text) self.token_budget
          (let t = v.some_tokens in omega arith) in
      let cut : length (take (self.token_budget * self.chars_per_token) text)
          ≡ self.token_budget * self.chars_per_token =
        omega (arith, length-take (self.token_budget * self.chars_per_token) text) in
      rw (cut, ceil_div-mul v.some_chars self.token_budget) (let t = v.some_tokens in omega arith)

  -- Once a message has been selected, the loop takes whole messages as long as they fit.
  select_loop-Kept :
      (rest selected : List MemoryMessage) (used : ℕ) (m : MemoryMessage)
      → used ≤ self.token_budget
      → Kept rest (m ∷ selected) used (select_loop self rest (m ∷ selected) used)
  unfolding select_loop admit
  select_loop-Kept [] selected used m h = record {
    taken = [];
    left = [];
    split = refl;
    messages = sym (append-nil (m ∷ selected));
    tokens = omega arith;
    within = h;
    stops = tt;
  }
  select_loop-Kept (x ∷ rest) selected used m h =
      elim (Bool-cases (ltb self.token_budget (used + estimate_tokens self x.content))) [
        | inl full ↦ rw full (record {
          taken = [];
          left = x ∷ rest;
          split = refl;
          messages = sym (append-nil (m ∷ selected));
          tokens = omega arith;
          within = h;
          stops = ltb→lt _ _ full;
        })
        | inr room ↦ rw room (
            let k =
              select_loop-Kept rest (selected ++ x ∷ []) (used + estimate_tokens self x.content) m
                (ground arith) in
            record {
              taken = x ∷ k.taken;
              left = k.left;
              split = ap (◌∷◌ x) k.split;
              messages = k.messages ∙ append_assoc (m ∷ selected) (x ∷ []) k.taken;
              tokens = omega (arith, k.tokens);
              within = k.within;
              stops = k.stops;
            })
      ]

  -- Where the messages of a window come from, newest first: whole, or one that was cut.
  pub data Source : (taken messages : List MemoryMessage) → Type 0 where
    whole : (taken : List MemoryMessage) → Source taken taken
    cut :
        (m : MemoryMessage)
        → self.token_budget < estimate_tokens self m.content
        → Source (m ∷ []) (record m { content = truncate self m.content self.token_budget } ∷ [])

  -- The result of the loop from its start.
  pub record Selected (rest : List MemoryMessage) (r : List MemoryMessage × ℕ) : Type 0 where
    pub taken : List MemoryMessage
    pub left : List MemoryMessage
    pub split : rest ≡ taken ++ left
    pub source : Source taken r.0
    pub tokens : r.1 ≡ cost r.0
    pub within : r.1 ≤ self.token_budget
    pub stops : Stops r.1 left

  full-Stops : (rest : List MemoryMessage) → Stops self.token_budget rest
  full-Stops [] = tt
  full-Stops (x ∷ rest) = omega (arith, estimate_pos x.content)

  select_loop_full :
      (rest selected : List MemoryMessage) (m : MemoryMessage)
      → select_loop self rest (m ∷ selected) self.token_budget ≡ (m ∷ selected, self.token_budget)
  unfolding select_loop
  select_loop_full [] selected m = refl
  select_loop_full (x ∷ rest) selected m =
      rw (lt→ltb self.token_budget _ (full-Stops (x ∷ rest))) refl

  pub select_loop-Selected :
      (rest : List MemoryMessage) → IsValid self → Selected rest (select_loop self rest [] 0)
  unfolding select_loop admit
  select_loop-Selected [] v = record {
    taken = [];
    left = [];
    split = refl;
    source = whole [];
    tokens = refl;
    within = omega arith;
    stops = tt;
  }
  select_loop-Selected (x ∷ rest) v =
      elim (Bool-cases (ltb self.token_budget (estimate_tokens self x.content))) [
        | inl long ↦
            let e : 0 + self.token_budget ≡ self.token_budget = omega arith in
            rw (long, e, select_loop_full)
              (record {
                taken = x ∷ [];
                left = rest;
                split = refl;
                source = cut x (ltb→lt _ _ long);
                tokens = omega (arith, estimate-truncate x.content v (ltb→lt _ _ long));
                within = omega arith;
                stops = full-Stops rest;
              })
        | inr fits ↦ rw fits (
            let k =
              select_loop-Kept rest [] (0 + estimate_tokens self x.content) x (ground arith) in
            record {
              taken = x ∷ k.taken;
              left = k.left;
              split = ap (◌∷◌ x) k.split;
              source = subst (Source (x ∷ k.taken)) (sym k.messages) (whole (x ∷ k.taken));
              tokens = k.tokens ∙ omega arith ∙ ap cost (sym k.messages);
              within = k.within;
              stops = k.stops;
            })
      ]
