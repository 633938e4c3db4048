-- ===== src/Tools/Registry/Registration.antt =====
-- Registered tools and the list of their descriptors.
use ai_agent_hub.Common.{
  ◌≡◌, refl, ap, sym, ◌∙◌, subst, String, Bool, true, false, some, List, [], ◌∷◌, map, ◌==◌,
  string_eq, if◌then◌else◌, ==-eq, ==_refl, Bool-cases, inl, inr, All,
}
use ai_agent_hub.Common.Result.{Result, ok, err}
use ai_agent_hub.Common.Dict.{Dict, get, has, put, get-put}
use ai_agent_hub.Common.Strings.{string_leb}
use ai_agent_hub.Tools.Contracts.{ToolRegistryError, ToolDescriptor, Tool}
use ai_agent_hub.Tools.Registry.{
  descriptor_for, register_as, register, insert_name, sorted_names, descriptors_of,
  list_descriptors,
}
use ai_agent_hub.Tools.Registry.Names.{Names, sorted_names-Names}

All-insert_name :
    (P : String → Type 0) (x : String) (names : List String)
    → P x
    → All P names
    → All P (insert_name x names)
unfolding insert_name
All-insert_name P x [] h others = (h, tt)
All-insert_name P x (y ∷ ys) h others = elim (Bool-cases (string_leb x y)) [
  | inl before ↦ rw before (h, others)
  | inr after ↦ rw after (others.0, All-insert_name P x ys h others.1)
]

-- The list of descriptors that has the given names.
record Named (names : List String) (r : Result ToolRegistryError (List ToolDescriptor))
    : Type 0 where
  pub descriptors : List ToolDescriptor
  pub listed : r ≡ ok descriptors
  pub named : map (λ d. d.name) descriptors ≡ names

-- A list of descriptors, in the ascending order of their names, which are those of the registry.
pub record Lists {V : Type 0} (tools : Dict V) (r : Result ToolRegistryError (List ToolDescriptor))
    : Type 0 where
  pub descriptors : List ToolDescriptor
  pub listed : r ≡ ok descriptors
  pub names : Names tools (map (λ d. d.name) descriptors)

module _ {V : Type 0} where
  -- A tool that stands under the name that its descriptor has.
  pub record IsKeyed (name : String) (tool : Tool V) : Type 0 where
    pub descriptor : ToolDescriptor
    pub described : descriptor_for tool ≡ ok descriptor
    pub named : descriptor.name ≡ name

  abbrev pub Keyed : Dict (Tool V) → Type 0
  Keyed tools = (name : String) (tool : Tool V) → get tools name ≡ some tool → IsKeyed name tool

  -- What a registration does: the tool was not there, and its name now reads as the tool.
  pub record Registers (tools : Dict (Tool V)) (tool : Tool V) (tools' : Dict (Tool V))
      : Type 0 where
    pub descriptor : ToolDescriptor
    pub described : descriptor_for tool ≡ ok descriptor
    pub is_new : has tools descriptor.name ≡ false
    pub reads :
        (other : String)
        → get tools' other ≡ (if descriptor.name == other then some tool else get tools other)

  register_as-Registers :
      (tools : Dict (Tool V)) (tool : Tool V) (r : Result ToolRegistryError ToolDescriptor)
      (tools' : Dict (Tool V))
      → descriptor_for tool ≡ r
      → register_as tools tool r ≡ ok tools'
      → Registers tools tool tools'
  register_as-Registers tools tool (err e) tools' d h = cc
  register_as-Registers tools tool (ok descriptor) tools' d h =
      by_test (has tools descriptor.name) _ refl h
    where
      by_test :
          (b : Bool) (e : ToolRegistryError)
          → has tools descriptor.name ≡ b
          → (if◌then◌else◌ {A = Result ToolRegistryError (Dict (Tool V))} b
              (err e)
              (ok (put tools descriptor.name tool)))
            ≡ ok tools'
          → Registers tools tool tools'
      by_test true e there h = cc
      by_test false e new h = record {
        descriptor = descriptor;
        described = d;
        is_new = new;
        reads = λ other.
            let put_in : put tools descriptor.name tool ≡ tools' = cc in
            ap (λ t. get t other) (sym put_in) ∙ get-put tool descriptor.name other tools;
      }

  -- A registration that succeeds adds the tool under its name, which was free, and leaves the
  -- other names as they were.
  pub register-Registers :
      (tools : Dict (Tool V)) (tool : Tool V) (tools' : Dict (Tool V))
      → register tools tool ≡ ok tools'
      → Registers tools tool tools'
  unfolding register
  register-Registers tools tool tools' h =
      register_as-Registers tools tool (descriptor_for tool) tools' refl h

  -- Registration keeps every tool under the name of its descriptor.
  pub register-Keyed :
      (tools : Dict (Tool V)) (tool : Tool V) (tools' : Dict (Tool V))
      → register tools tool ≡ ok tools'
      → Keyed tools
      → Keyed tools'
  register-Keyed tools tool tools' h keyed name t found =
      let r = register-Registers tools tool tools' h in
      elim (Bool-cases (r.descriptor.name == name)) [
        | inl same ↦
            (let read : get tools' name ≡ some tool = r.reads name ∙ rw same refl in
              let is_tool : t ≡ tool = cc in
              record {
                descriptor = r.descriptor;
                described = ap descriptor_for is_tool ∙ r.described;
                named = ==-eq r.descriptor.name name same;
              })
        | inr other ↦
            (let read : get tools' name ≡ get tools name = r.reads name ∙ rw other refl in
              keyed name t cc)
      ]

  -- A name under which a tool stands.
  abbrev Present : Dict (Tool V) → String → Type 0
  Present tools name = (tool : Tool V) × (get tools name ≡ some tool)

  Present-cons :
      (entry : String × Tool V) (tools : Dict (Tool V)) (name : String)
      → Present tools name
      → Present (entry ∷ tools) name
  unfolding get
  Present-cons (key, t) tools name (tool, found) = elim (Bool-cases (key == name)) [
    | inl same ↦ (t, rw same refl)
    | inr other ↦ (tool, rw other found)
  ]

  All-Present-cons :
      (entry : String × Tool V) (tools : Dict (Tool V)) (names : List String)
      → All (Present tools) names
      → All (Present (entry ∷ tools)) names
  All-Present-cons entry tools [] h = tt
  All-Present-cons entry tools (name ∷ names) h =
      (Present-cons entry tools name h.0, All-Present-cons entry tools names h.1)

  sorted_names-Present : (tools : Dict (Tool V)) → All (Present tools) (sorted_names tools)
  unfolding sorted_names get
  sorted_names-Present [] = tt
  sorted_names-Present ((name, tool) ∷ tools) =
      All-insert_name (Present ((name, tool) ∷ tools)) name (sorted_names tools)
        (tool, rw (==_refl name) refl)
        (All-Present-cons (name, tool) tools (sorted_names tools) (sorted_names-Present tools))

  descriptors_of-Named :
      (tools : Dict (Tool V)) (names : List String)
      → Keyed tools
      → All (Present tools) names
      → Named names (descriptors_of tools names)
  unfolding descriptors_of
  descriptors_of-Named tools [] keyed h = record { descriptors = []; listed = refl; named = refl }
  descriptors_of-Named tools (name ∷ names) keyed ((tool, found), others) =
      let k = keyed name tool found in
      let rest = descriptors_of-Named tools names keyed others in
      record {
        descriptors = k.descriptor ∷ rest.descriptors;
        listed = rw (found, k.described, rest.listed) refl;
        named = rw (k.named, rest.named) refl;
      }

  -- Where every tool stands under the name of its descriptor, which registration keeps so, the
  -- list of descriptors does not fail. It has one descriptor for each tool, their names are the
  -- registered names, and of two neighbours the first name is not above the second.
  pub list_descriptors-Lists :
      (tools : Dict (Tool V)) → Keyed tools → Lists tools (list_descriptors tools)
  unfolding list_descriptors
  list_descriptors-Lists tools keyed =
      let all =
        descriptors_of-Named tools (sorted_names tools) keyed (sorted_names-Present tools) in
      record {
        descriptors = all.descriptors;
        listed = all.listed;
        names = subst (Names tools) (sym all.named) (sorted_names-Names tools);
      }
