-- ===== src/Serialization/Errors.antt =====
-- Stored errors (crates/dbos-core/src/serialization.rs).
use dbos_transact_rust.Prelude.{
  String, ◌≡◌, refl, sym, ap, ◌∙◌, Bool, true, false, ◌||◌, ◌==◌, ◌⊎◌, inl, inr, Option, none, some,
  is_empty, Bool-cases,
}
use dbos_transact_rust.Error.{DbosErrorCode, workflow_execution, code_eq}
use dbos_transact_rust.Error.Chain.{DbosError, PortableWorkflowError, with_source, is_code}
use dbos_transact_rust.Serialization.{
  Codecs, portable_serializer_name, portable_from_source, plain_error, recovered,
  serialize_workflow_error, deserialize_workflow_error,
}

or-false : (b : Bool) → (b || false) ≡ b
or-false true = refl
or-false false = refl

recovered-is_code :
    {V : Type 0} (c : Codecs V) (s : String) (x : String ⊎ PortableWorkflowError)
    (k : DbosErrorCode)
    → is_code (recovered c s x) k ≡ code_eq workflow_execution k
unfolding recovered plain_error with_source is_code
recovered-is_code c s (inl e) k = or-false (code_eq workflow_execution k)
recovered-is_code c s (inr p) k = or-false (code_eq workflow_execution k)

-- A property of what a stored error reads as.
read_cases {ℓ} :
    {V : Type 0} (c : Codecs V) (P : Option DbosError → Type ℓ) (s serialization : String)
    → P none
    → P (some (plain_error c s))
    → P (some (recovered c s (c.error_from_text s)))
    → P (deserialize_workflow_error c (some s) serialization)
unfolding deserialize_workflow_error
read_cases c P s serialization empty plain read = elim (Bool-cases (is_empty s)) [
  | inl t ↦ rw t empty
  | inr f ↦ elim (Bool-cases (serialization == portable_serializer_name)) [
    | inl t ↦ rw (f, t) read
    | inr n ↦ rw (f, n) plain
  ]
]

-- An error that is read from the database answers to the code WorkflowExecution and to no other,
-- whatever code the error had that was stored.
pub deserialize-is_code :
    {V : Type 0} (c : Codecs V) (s : Option String) (serialization : String) (e : DbosError)
    (k : DbosErrorCode)
    → deserialize_workflow_error c s serialization ≡ some e
    → is_code e k ≡ code_eq workflow_execution k
unfolding deserialize_workflow_error
deserialize-is_code c none serialization e k h = absurd (cc h)
deserialize-is_code c (some s) serialization e k h =
    read_cases c (λ r. r ≡ some e → is_code e k ≡ code_eq workflow_execution k) s serialization
      (λ h. absurd (cc h))
      (λ h. ap (λ x. is_code x k) (sym (cc h)) ∙ recovered-is_code c s (inl "") k)
      (λ h. ap (λ x. is_code x k) (sym (cc h)) ∙ recovered-is_code c s (c.error_from_text s) k) h

serialized :
    {V : Type 0} (c : Codecs V) (e : DbosError) (p : PortableWorkflowError) (text : String)
    → portable_from_source e ≡ some p
    → c.error_to_text p ≡ inr text
    → serialize_workflow_error c e portable_serializer_name ≡ text
unfolding serialize_workflow_error ◌==◌
serialized c e p text h k = rw h (rw k refl)

deserialized :
    {V : Type 0} (c : Codecs V) (p : PortableWorkflowError) (text : String)
    → is_empty text ≡ false
    → c.error_from_text text ≡ inr p
    → deserialize_workflow_error c (some text) portable_serializer_name
      ≡ some (recovered c text (inr p))
unfolding deserialize_workflow_error ◌==◌
deserialized c p text n r = rw (n, r) refl

-- A portable workflow error outlives the database: when it is in the chain of the error that is
-- stored for a portable workflow, the error that is read carries it, and is stored as the same
-- text again. `serde_json` writes the envelope as some text that is not empty, and reads it back.
pub deserialize-serialize :
    {V : Type 0} (c : Codecs V) (e : DbosError) (p : PortableWorkflowError) (text : String)
    → portable_from_source e ≡ some p
    → c.error_to_text p ≡ inr text
    → c.error_from_text text ≡ inr p
    → is_empty text ≡ false
    → let stored = serialize_workflow_error c e portable_serializer_name in
      (out : DbosError) × (deserialize_workflow_error c (some stored) portable_serializer_name
        ≡ some out)
      × (portable_from_source out ≡ some p)
      × (serialize_workflow_error c out portable_serializer_name ≡ stored)
unfolding with_source portable_from_source recovered
deserialize-serialize c e p text h k r n =
    let w = serialized c e p text h k in
    let out = recovered c text (inr p) in
    (
      out,
      ap (λ s. deserialize_workflow_error c (some s) portable_serializer_name) w
          ∙ deserialized c p text n r,
      refl,
      serialized c out p text refl k ∙ sym w,
    )
