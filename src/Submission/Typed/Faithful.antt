-- ===== src/Submission/Typed/Faithful.antt =====
-- What goes into a typed workflow and comes out of it (crates/dbos-core/src/workflow/run.rs,
-- mod.rs and handle.rs).
use dbos_transact_rust.Prelude.{
  String, ◌≡◌, refl, sym, ap, subst, Bool, true, false, ◌==◌, ==_refl, Option, none, some,
}
use dbos_transact_rust.Database.{Result, ok, err}
use dbos_transact_rust.Serialization.{
  Codecs, Typed, Serializer, portable_serializer_name, portable_serializer, json_serializer,
  resolve_encoder, encode,
}
use dbos_transact_rust.Serialization.Laws.{IsFaithful, ReadsBack, CustomFits, decode-encode}
use dbos_transact_rust.Serialization.Arguments.{
  Envelopes, Envelops, encode_portable_args, decode-encode_portable_args,
}
use dbos_transact_rust.Step.{WorkflowState}
use dbos_transact_rust.Submission.Typed.{
  BodyEnd, returned, panicked, tagged, encode_input, decode_input, output_of, ended, called, erased,
}
use dbos_transact_rust.Submission.Handles.{decode_output}

-- A tagged text comes from the text and the tag.
of_tagged :
    (r : Result (Option String)) (tag : String) (text : Option String) (stored : String)
    → tagged tag r ≡ ok (text, stored)
    → (r ≡ ok text) × (tag ≡ stored)
of_tagged (ok s) tag text stored h = (cc h, cc h)
of_tagged (err e) tag text stored h = absurd (cc h)

module _ {R V : Type 0} (c : Codecs V) (custom : Option (Serializer V)) (u : Typed R V) where
  -- What the encoder of a workflow wrote is read under the encoder's name.
  output_read :
      (is_portable : Bool) (r : R) (output : Option String)
      → IsFaithful V c
      → ReadsBack u
      → CustomFits custom
      → encode u (resolve_encoder c is_portable custom) r ≡ ok output
      → decode_output c custom u output (resolve_encoder c is_portable custom).name ≡ ok r
  unfolding decode_output
  output_read is_portable r output f b fits h =
      let (decoder, selected, reads) = decode-encode c u is_portable custom r output f b fits h in
      rw selected reads

  of_ended :
      {S : Type 0} (s : WorkflowState) (q : BodyEnd R × S) (output : Option String) (after : S)
      → ended c custom u s q ≡ (ok output, after)
      → (r : R) × (q ≡ (returned (ok r), after))
        × (encode u (resolve_encoder c s.is_portable custom) r ≡ ok output)
  unfolding output_of
  of_ended s (returned (ok r), w) output after h =
      (r, ap (λ x. (returned (ok r), x)) (ap (λ p. p.1) h), ap (λ p. p.0) h)
  of_ended s (returned (err e), w) output after h = absurd (cc (ap (λ p. p.0) h))
  of_ended s (panicked, w) output after h = absurd (cc (ap (λ p. p.0) h))

module _ {P V : Type 0} (c : Codecs V) (custom : Option (Serializer V)) (envelopes : Envelopes V)
    (t : Typed P V) where
  -- The tag of an input is the name of the encoder that the workflow uses.
  input_tag :
      (portable : Bool) (input : P) (text : Option String) (tag : String)
      → encode_input c custom envelopes t portable input ≡ ok (text, tag)
      → (resolve_encoder c portable custom).name ≡ tag
  unfolding encode_input resolve_encoder portable_serializer
  input_tag true input text tag h =
      (of_tagged (encode_portable_args c envelopes t input) portable_serializer_name text tag h).1
  input_tag false input text tag h =
      (of_tagged (encode t (resolve_encoder c false custom) input) _ text tag h).1

  name_apart :
      (x : Option (Serializer V))
      → CustomFits x
      → ((resolve_encoder c false x).name == portable_serializer_name) ≡ false
  unfolding resolve_encoder json_serializer ◌==◌
  name_apart none h = refl
  name_apart (some s) h = h.1

  decode-encode_input :
      (portable : Bool) (input : P) (text : Option String) (tag : String)
      → IsFaithful V c
      → ReadsBack t
      → Envelops c envelopes
      → CustomFits custom
      → encode_input c custom envelopes t portable input ≡ ok (text, tag)
      → decode_input c custom envelopes t text tag ≡ ok input
  unfolding encode_input decode_input
  decode-encode_input true input text tag f b e fits h =
      let (wrote, name) =
        of_tagged (encode_portable_args c envelopes t input) portable_serializer_name text tag h in
      rw (sym name, ==_refl portable_serializer_name)
        (decode-encode_portable_args c envelopes t input text f b e wrote)
  decode-encode_input false input text tag f b e fits h =
      let (wrote, name) =
        of_tagged (encode t (resolve_encoder c false custom) input) _ text tag h in
      let (decoder, selected, reads) = decode-encode c t false custom input text f b fits wrote in
      rw (sym name, name_apart custom fits, selected) reads

-- A typed workflow is run on the input that its caller gave, and whoever reads its stored output
-- under the input's tag gets what its body returned: in the workflow that runs the body, the
-- caller's portability and serializer are in force, `serde_json` and base64 are faithful and read
-- the types and the envelope back, and a custom serializer reads back what it wrote and is not
-- named `portable_json`.
pub erased_lem :
    {P R S V : Type 0} (c : Codecs V) (custom : Option (Serializer V)) (envelopes : Envelopes V)
    (t : Typed P V) (u : Typed R V) (f : P → S → BodyEnd R × S) (s : WorkflowState) (input : P)
    (text output : Option String) (tag : String) (w after : S)
    → IsFaithful V c
    → ReadsBack t
    → ReadsBack u
    → Envelops c envelopes
    → CustomFits custom
    → encode_input c custom envelopes t s.is_portable input ≡ ok (text, tag)
    → erased c custom envelopes t u f s text tag w ≡ (ok output, after)
    → (r : R) × (f input w ≡ (returned (ok r), after))
      × (decode_output c custom u output tag ≡ ok r)
unfolding erased
erased_lem c custom envelopes t u f s input text output tag w after faith b d e fits h ran =
    let x =
      decode-encode_input c custom envelopes t s.is_portable input text tag faith b e fits h in
    let (r, body, wrote) = of_ended c custom u s (f input w) output after (rw (x, called) at ran) in
    let name = input_tag c custom envelopes t s.is_portable input text tag h in
    (
      r,
      body,
      subst (λ g. decode_output c custom u output g ≡ ok r) name
          (output_read c custom u s.is_portable r output faith d fits wrote),
    )
