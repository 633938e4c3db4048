-- ===== src/Tools/Schema/Conforms.antt =====
-- The arguments that `_validate_arguments` lets through are those that conform to the schema.
use ai_agent_hub.Common.{
  ◌≡◌, ◌↔◌, refl, String, Bool, true, false, not, Option, none, some, List, [], ◌∷◌, string_eq,
  if◌then◌else◌,
}
use ai_agent_hub.Common.Result.{Result, ok, err, then-ok}
use ai_agent_hub.Agents.State.{Json, Items, Fields}
use ai_agent_hub.Tools.Contracts.{ToolError}
use ai_agent_hub.Tools.Schema.{
  lookup, has_key, value_or, matches_json_type, missing, check_definition, check_arguments,
  refuse_missing, validate_against, validate_arguments,
}

-- An argument that the properties declare, with a type that fits.
pub data IsDeclared (properties : Fields) (name : String) (value : Json) : Type 0 where
  declared :
      (definition : Fields)
      → lookup properties name ≡ some (Json.obj definition)
      → matches_json_type value (lookup definition "type") ≡ true
      → IsDeclared properties name value

abbrev pub AllDeclared : Fields → Fields → Type 0
AllDeclared properties Fields.end = Unit
AllDeclared properties (Fields.field name value rest) =
    IsDeclared properties name value × AllDeclared properties rest

-- Every required name is the name of an argument.
abbrev pub AllPresent : Items → Fields → Type 0
AllPresent Items.nil arguments = Unit
AllPresent (Items.cons (Json.str name) rest) arguments =
    (has_key arguments name ≡ true) × AllPresent rest arguments
AllPresent (Items.cons _ rest) arguments = AllPresent rest arguments

pub record Conforms (schema arguments : Fields) : Type 0 where
  pub properties : Fields
  pub required : Items
  pub has_properties :
      value_or (lookup schema "properties") (Json.obj Fields.end) ≡ Json.obj properties
  pub has_required : value_or (lookup schema "required") (Json.arr Items.nil) ≡ Json.arr required
  pub present : AllPresent required arguments
  pub all_declared : AllDeclared properties arguments

-- The loop over the required names finds nothing exactly when all of them are present.
none_left :
    (b : Bool) (name : String) (others : List String)
    → (if not b then name ∷ others else others) ≡ []
    → (b ≡ true) × (others ≡ [])
none_left true name others h = (refl, h)
none_left false name others h = cc

missing→AllPresent :
    (required : Items) (arguments : Fields)
    → missing required arguments ≡ []
    → AllPresent required arguments
unfolding missing
missing→AllPresent Items.nil arguments h = tt
missing→AllPresent (Items.cons (Json.str name) rest) arguments h =
    let (here, others) = none_left (has_key arguments name) name (missing rest arguments) h in
    (here, missing→AllPresent rest arguments others)
missing→AllPresent (Items.cons Json.null rest) arguments h = missing→AllPresent rest arguments h
missing→AllPresent (Items.cons (Json.bool b) rest) arguments h = missing→AllPresent rest arguments h
missing→AllPresent (Items.cons (Json.int i) rest) arguments h = missing→AllPresent rest arguments h
missing→AllPresent (Items.cons (Json.float f) rest) arguments h =
    missing→AllPresent rest arguments h
missing→AllPresent (Items.cons (Json.arr a) rest) arguments h = missing→AllPresent rest arguments h
missing→AllPresent (Items.cons (Json.obj o) rest) arguments h = missing→AllPresent rest arguments h

AllPresent→missing :
    (required : Items) (arguments : Fields)
    → AllPresent required arguments
    → missing required arguments ≡ []
unfolding missing
AllPresent→missing Items.nil arguments h = refl
AllPresent→missing (Items.cons (Json.str name) rest) arguments h =
    rw h.0 (AllPresent→missing rest arguments h.1)
AllPresent→missing (Items.cons Json.null rest) arguments h = AllPresent→missing rest arguments h
AllPresent→missing (Items.cons (Json.bool b) rest) arguments h = AllPresent→missing rest arguments h
AllPresent→missing (Items.cons (Json.int i) rest) arguments h = AllPresent→missing rest arguments h
AllPresent→missing (Items.cons (Json.float f) rest) arguments h =
    AllPresent→missing rest arguments h
AllPresent→missing (Items.cons (Json.arr a) rest) arguments h = AllPresent→missing rest arguments h
AllPresent→missing (Items.cons (Json.obj o) rest) arguments h = AllPresent→missing rest arguments h

module _ (properties : Fields) (name : String) (value : Json) where
  check_definition→IsDeclared :
      (d : Option Json)
      → lookup properties name ≡ d
      → check_definition name value d ≡ ok tt
      → IsDeclared properties name value
  check_definition→IsDeclared none e h = cc
  check_definition→IsDeclared (some Json.null) e h = cc
  check_definition→IsDeclared (some (Json.bool b)) e h = cc
  check_definition→IsDeclared (some (Json.int i)) e h = cc
  check_definition→IsDeclared (some (Json.float f)) e h = cc
  check_definition→IsDeclared (some (Json.str s)) e h = cc
  check_definition→IsDeclared (some (Json.arr a)) e h = cc
  check_definition→IsDeclared (some (Json.obj definition)) e h =
      declared definition e (fits (matches_json_type value (lookup definition "type")) _ h)
    where
      fits :
          (b : Bool) (error : ToolError)
          → if◌then◌else◌ {A = Result ToolError (Unit {0})} b (ok tt) (err error) ≡ ok tt
          → b ≡ true
      fits true error h = refl
      fits false error h = cc

  IsDeclared→check_definition :
      IsDeclared properties name value
      → check_definition name value (lookup properties name) ≡ ok tt
  IsDeclared→check_definition (declared definition e fits) = rw (e, fits) refl

check_arguments→AllDeclared :
    (properties arguments : Fields)
    → check_arguments properties arguments ≡ ok tt
    → AllDeclared properties arguments
unfolding check_arguments
check_arguments→AllDeclared properties Fields.end h = tt
check_arguments→AllDeclared properties (Fields.field name value rest) h =
    let (first, others) =
      then-ok (check_definition name value (lookup properties name))
        (check_arguments properties rest) tt h in
    (
      check_definition→IsDeclared properties name value (lookup properties name) refl first,
      check_arguments→AllDeclared properties rest others,
    )

AllDeclared→check_arguments :
    (properties arguments : Fields)
    → AllDeclared properties arguments
    → check_arguments properties arguments ≡ ok tt
unfolding check_arguments
AllDeclared→check_arguments properties Fields.end h = refl
AllDeclared→check_arguments properties (Fields.field name value rest) h =
    rw (IsDeclared→check_definition properties name value h.0)
      (AllDeclared→check_arguments properties rest h.1)

refuse_missing-nil : (names : List String) → refuse_missing names ≡ ok tt → names ≡ []
refuse_missing-nil [] h = refl
refuse_missing-nil (name ∷ names) h = cc

module _ (schema arguments : Fields) where
  validate_against→Conforms :
      (p r : Json)
      → value_or (lookup schema "properties") (Json.obj Fields.end) ≡ p
      → value_or (lookup schema "required") (Json.arr Items.nil) ≡ r
      → validate_against arguments p r ≡ ok tt
      → Conforms schema arguments
  validate_against→Conforms (Json.obj properties) (Json.arr required) ep er h =
      let (first, others) =
        then-ok (refuse_missing (missing required arguments)) (check_arguments properties arguments)
          tt h in
      record {
        properties = properties;
        required = required;
        has_properties = ep;
        has_required = er;
        present =
            missing→AllPresent required arguments
              (refuse_missing-nil (missing required arguments) first);
        all_declared = check_arguments→AllDeclared properties arguments others;
      }
  validate_against→Conforms _ _ ep er h = cc

  -- The validation succeeds exactly for the arguments that conform to the schema: every required
  -- name is given, and every argument is declared with a type that fits it.
  pub validate_arguments_iff_Conforms :
      (validate_arguments schema arguments ≡ ok tt) ↔ Conforms schema arguments
  unfolding validate_arguments
  validate_arguments_iff_Conforms = (
    validate_against→Conforms _ _ refl refl,
    λ c.
        rw (c.has_properties, c.has_required, AllPresent→missing c.required arguments c.present)
          (AllDeclared→check_arguments c.properties arguments c.all_declared),
  )
