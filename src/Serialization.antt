-- ===== src/Serialization.antt =====
-- Values and errors as text (crates/dbos-core/src/serialization.rs). The JSON and base64
-- libraries are the fields of `Codecs`.
pub mod Errors
pub mod Laws
pub mod Arguments
use dbos_transact_rust.Prelude.{
  String, Bool, true, false, ◌==◌, is_empty, ◌⊎◌, inl, inr, Option, none, some, List, [], ◌∷◌,
  concat, if◌then◌else◌, not,
}
use dbos_transact_rust.Error.{workflow_unexpected_type, workflow_execution}
use dbos_transact_rust.Error.Chain.{
  DbosError, dbos_error, PortableWorkflowError, Source, no_source, dbos, portable, sqlx, foreign,
  source_of, message_of, display, with_source,
}
use dbos_transact_rust.Error.Make.{new}
use dbos_transact_rust.Database.{Result, ok, err}

-- `serde_json` over its values `V`, and base64; a failure is its text.
pub record Codecs (V : Type 0) : Type 0 where
  pub is_null : V → Bool
  pub null : V
  pub to_text : V → String ⊎ String
  pub from_text : String → String ⊎ V
  pub base64 : String → String
  pub from_base64 : String → String ⊎ String
  pub error_to_text : PortableWorkflowError → String ⊎ String
  pub error_from_text : String → String ⊎ PortableWorkflowError

-- `Serialize` and `DeserializeOwned` of a type, through `serde_json`'s values.
pub record Typed (R V : Type 0) : Type 0 where
  pub to_value : R → String ⊎ V
  pub from_value : V → String ⊎ R

pub data SerializeError : Type 0 where
  encode_failed decode_json decode_base64 unknown_format gob_unsupported : String → SerializeError

unfoldable pub describe : SerializeError → String
describe (encode_failed e) = concat ("failed to encode data: " ∷ e ∷ [])
describe (decode_json e) = concat ("failed to decode json data: " ∷ e ∷ [])
describe (decode_base64 e) = concat ("failed to decode base64 data: " ∷ e ∷ [])
describe (unknown_format s) = concat ("unknown serialization format \"" ∷ s ∷ "\"" ∷ [])
describe (gob_unsupported s) =
    concat ("gob serialization is not supported (format \"" ∷ s ∷ "\")" ∷ [])

-- `From<SerializeError> for DbosError`
unfoldable pub from_serialize_error : SerializeError → DbosError
unfolding describe with_source
from_serialize_error e =
    with_source (new workflow_unexpected_type (describe e)) (foreign (describe e))

abbrev pub nil_marker : String
nil_marker = "__DBOS_NIL"

abbrev pub portable_serializer_name : String
portable_serializer_name = "portable_json"

abbrev pub json_serializer_name : String
json_serializer_name = "DBOS_JSON"

abbrev pub gob_serializer_name : String
gob_serializer_name = "DBOS_GOB"

pub record Serializer (V : Type 0) : Type 0 where
  pub name : String
  pub encode_value : V → SerializeError ⊎ Option String
  pub decode_value : Option String → SerializeError ⊎ V

-- `map_err`
abbrev pub map_err {ℓ} : {A : Type ℓ} → (String → SerializeError) → String ⊎ A → SerializeError ⊎ A
map_err f (inl e) = inl (f e)
map_err f (inr a) = inr a

-- `?` on a serialization result, in a function that returns `DbosError`.
abbrev pub lift {ℓ} : {A : Type ℓ} → SerializeError ⊎ A → Result A
lift (inl e) = err (from_serialize_error e)
lift (inr a) = ok a

-- The JSON text, as the serializer stores it.
abbrev pub framed : (String → String) → String ⊎ String → SerializeError ⊎ Option String
framed wrap (inl e) = inl (encode_failed e)
framed wrap (inr t) = inr (some (wrap t))

module _ {V : Type 0} (c : Codecs V) where
  abbrev json_decoded : String ⊎ String → SerializeError ⊎ V
  json_decoded (inl e) = inl (decode_base64 e)
  json_decoded (inr t) = map_err decode_json (c.from_text t)

  abbrev json_decode : Option String → SerializeError ⊎ V
  json_decode none = inr c.null
  json_decode (some s) = if s == nil_marker then inr c.null else json_decoded (c.from_base64 s)

  -- base64 of the JSON text; nil is a marker.
  unfoldable pub json_serializer : Serializer V
  json_serializer = record {
    name = json_serializer_name;
    encode_value =
        λ v. if c.is_null v then inr (some nil_marker) else framed c.base64 (c.to_text v);
    decode_value = json_decode;
  }

  abbrev portable_decode : Option String → SerializeError ⊎ V
  portable_decode none = inr c.null
  portable_decode (some s) = if s == "null" then inr c.null else map_err decode_json (c.from_text s)

  -- The JSON text itself.
  unfoldable pub portable_serializer : Serializer V
  portable_serializer = record {
    name = portable_serializer_name;
    encode_value = λ v. if c.is_null v then inr (some "null") else framed (λ t. t) (c.to_text v);
    decode_value = portable_decode;
  }

  unfoldable pub resolve_encoder : Bool → Option (Serializer V) → Serializer V
  resolve_encoder true custom = portable_serializer
  resolve_encoder false (some s) = s
  resolve_encoder false none = json_serializer

  -- The built-in decoders, after the custom one.
  abbrev builtin_decoder : String → SerializeError ⊎ Serializer V
  builtin_decoder stored =
      if is_empty stored
      then inr json_serializer
      else if stored == json_serializer_name
      then inr json_serializer
      else if stored == gob_serializer_name
      then inl (gob_unsupported stored)
      else inl (unknown_format stored)

  abbrev custom_decoder : String → Option (Serializer V) → SerializeError ⊎ Serializer V
  custom_decoder stored none = builtin_decoder stored
  custom_decoder stored (some s) = if s.name == stored then inr s else builtin_decoder stored

  unfoldable pub resolve_decoder : String → Option (Serializer V) → SerializeError ⊎ Serializer V
  resolve_decoder stored custom =
      if stored == portable_serializer_name
      then inr portable_serializer
      else custom_decoder stored custom

module _ {R V : Type 0} (t : Typed R V) where
  abbrev pub encode_with : Serializer V → String ⊎ V → Result (Option String)
  encode_with ser (inl e) = err (from_serialize_error (encode_failed e))
  encode_with ser (inr v) = lift (ser.encode_value v)

  -- Typed value to stored text.
  unfoldable pub encode : Serializer V → R → Result (Option String)
  encode ser x = encode_with ser (t.to_value x)

  abbrev decode_with : SerializeError ⊎ V → Result R
  decode_with (inl e) = err (from_serialize_error e)
  decode_with (inr v) = lift (map_err decode_json (t.from_value v))

  -- Stored text to typed value.
  unfoldable pub decode : Serializer V → Option String → Result R
  decode ser s = decode_with (ser.decode_value s)

-- The portable error down the chain, if there is one.
unfoldable mutual
  pub portable_in : Source → Option PortableWorkflowError
  portable_in no_source = none
  portable_in (dbos e) = portable_from_source e
  portable_in (portable p) = some p
  portable_in (sqlx e) = none
  portable_in (foreign t) = none

  pub portable_from_source : DbosError → Option PortableWorkflowError
  portable_from_source (dbos_error k m x s) = portable_in s

module _ {V : Type 0} (c : Codecs V) where
  abbrev pub envelope : DbosError → Option PortableWorkflowError → PortableWorkflowError
  envelope e none = record {
    name = "Portable Error";
    message = display e;
    code = none;
    details = none;
  }
  envelope e (some p) = p

  abbrev pub text_or : String → String ⊎ String → String
  text_or d (inl e) = d
  text_or d (inr t) = t

  unfoldable pub serialize_workflow_error : DbosError → String → String
  unfolding portable_from_source
  serialize_workflow_error e serialization =
      if not (serialization == portable_serializer_name)
      then display e
      else text_or (display e) (c.error_to_text (envelope e (portable_from_source e)))

  -- A recovered error is a workflow-execution error.
  unfoldable pub plain_error : String → DbosError
  plain_error message = new workflow_execution message

  abbrev pub recovered : String → String ⊎ PortableWorkflowError → DbosError
  unfolding with_source plain_error
  recovered s (inl e) = plain_error s
  recovered s (inr p) = with_source (new workflow_execution p.message) (portable p)

  unfoldable pub deserialize_workflow_error : Option String → String → Option DbosError
  unfolding plain_error recovered
  deserialize_workflow_error none serialization = none
  deserialize_workflow_error (some s) serialization =
      if is_empty s
      then none
      else if not (serialization == portable_serializer_name)
      then some (plain_error s)
      else some (recovered s (c.error_from_text s))
