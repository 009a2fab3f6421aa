-- ===== src/Serialization/Arguments.antt =====
-- The envelope of portable workflow inputs (crates/dbos-core/src/serialization.rs).
use dbos_transact_rust.Prelude.{
  String, ◌≡◌, refl, sym, ap, ◌∙◌, Bool, true, false, ◌==◌, ◌⊎◌, inl, inr, Option, none, some, List,
  [], ◌∷◌, arith, if◌then◌else◌,
}
use dbos_transact_rust.Database.{Result, ok}
use dbos_transact_rust.Serialization.{
  Codecs, Typed, decode_json, lift, map_err, portable_serializer, encode_with,
}
use dbos_transact_rust.Serialization.Laws.{IsFaithful, ReadsBack, sum-cases, stored_cases}

pub record PortableWorkflowArgs (V : Type 0) : Type 0 where
  pub positional_args : List V
  pub named_args : List (String × V)

-- Whether the type is `PortableWorkflowArgs` itself; `json!` of one positional argument; and how
-- an envelope is read.
pub record Envelopes (V : Type 0) : Type 0 where
  pub is_envelope : Bool
  pub of_argument : V → V
  pub read : V → String ⊎ PortableWorkflowArgs V

module _ {P V : Type 0} (c : Codecs V) (envelopes : Envelopes V) (t : Typed P V) where
  abbrev argument : String ⊎ V → String ⊎ V
  argument (inl e) = inl e
  argument (inr v) = inr (if envelopes.is_envelope then v else envelopes.of_argument v)

  unfoldable pub encode_portable_args : P → Result (Option String)
  encode_portable_args x = encode_with t (portable_serializer c) (argument (t.to_value x))

  abbrev from_json : String ⊎ V → Result P
  from_json (inl e) = lift (inl (decode_json e))
  from_json (inr v) = lift (map_err decode_json (t.from_value v))

  abbrev first_argument : List V → Result P
  first_argument [] = from_json (inr c.null)
  first_argument (v ∷ vs) = from_json (inr v)

  abbrev opened : String ⊎ PortableWorkflowArgs V → Result P
  opened (inl e) = lift (inl (decode_json e))
  opened (inr envelope) = first_argument envelope.positional_args

  abbrev read_envelope : String ⊎ V → Result P
  read_envelope (inl e) = lift (inl (decode_json e))
  read_envelope (inr v) = opened (envelopes.read v)

  unfoldable pub decode_portable_args : Option String → Result P
  decode_portable_args none = from_json (inr c.null)
  decode_portable_args (some raw) =
      if raw == "null"
      then from_json (inr c.null)
      else if envelopes.is_envelope
      then from_json (c.from_text raw)
      else read_envelope (c.from_text raw)

-- What the program relies on in the envelope's `serde` implementation: the object of one argument
-- is no null and is read as the envelope of that argument.
abbrev pub Envelops : {V : Type 0} → Codecs V → Envelopes V → Type 0
Envelops {V} c envelopes =
    (v : V)
    → (c.is_null (envelopes.of_argument v) ≡ false)
      × (envelopes.read (envelopes.of_argument v)
          ≡ inr (record { positional_args = v ∷ []; named_args = [] }))

module _ {P V : Type 0} (c : Codecs V) (t : Typed P V) (of_argument : V → V)
    (read : V → String ⊎ PortableWorkflowArgs V) (f : IsFaithful V c) (b : ReadsBack t) where
  abbrev kind : Bool → Envelopes V
  kind is_envelope = record { is_envelope = is_envelope; of_argument = of_argument; read = read }

  reads_null :
      (is_envelope : Bool) (x : P) (v : V)
      → t.to_value x ≡ inr v
      → c.is_null v ≡ true
      → decode_portable_args c (kind is_envelope) t (some "null") ≡ ok x
  unfolding decode_portable_args ◌==◌
  reads_null is_envelope x v k n = rw (sym (f.null_value v n), b x v k) refl

  reads_itself :
      (x : P) (v : V) (u : String)
      → t.to_value x ≡ inr v
      → c.is_null v ≡ false
      → c.to_text v ≡ inr u
      → decode_portable_args c (kind true) t (some u) ≡ ok x
  unfolding decode_portable_args
  reads_itself x v u k n l = rw (f.only_null v u n l, f.text_parses v u l, b x v k) refl

  reads_argument :
      (x : P) (v : V) (u : String)
      → Envelops c (kind false)
      → t.to_value x ≡ inr v
      → c.to_text (of_argument v) ≡ inr u
      → decode_portable_args c (kind false) t (some u) ≡ ok x
  unfolding decode_portable_args
  reads_argument x v u e k l =
      rw
        (
          f.only_null (of_argument v) u (e v).0 l,
          f.text_parses (of_argument v) u l,
          (e v).1,
          b x v k,
        )
        refl

  stored :
      (is_envelope : Bool) (x : P) (v : V) (s : Option String)
      → Envelops c (kind is_envelope)
      → t.to_value x ≡ inr v
      → (portable_serializer c).encode_value (if is_envelope then v else of_argument v) ≡ inr s
      → decode_portable_args c (kind is_envelope) t s ≡ ok x
  unfolding portable_serializer
  stored true x v s e k h =
      stored_cases c (λ s. decode_portable_args c (kind true) t s ≡ ok x) "null" (λ u. u) v s
        (reads_null true x v k) (λ u n l. reads_itself x v u k n l) h
  stored false x v s e k h =
      stored_cases c (λ s. decode_portable_args c (kind false) t s ≡ ok x) "null" (λ u. u)
        (of_argument v) s (λ n. absurd (cc (n, (e v).0))) (λ u n l. reads_argument x v u e k l) h

  read_back :
      (is_envelope : Bool) (x : P) (s : Option String)
      → Envelops c (kind is_envelope)
      → encode_portable_args c (kind is_envelope) t x ≡ ok s
      → decode_portable_args c (kind is_envelope) t s ≡ ok x
  unfolding encode_portable_args
  read_back is_envelope x s e h = elim (sum-cases (t.to_value x)) [
    | inl (d, k) ↦ absurd (ground (arith, h, k))
    | inr (v, k) ↦
        elim (sum-cases
          ((portable_serializer c).encode_value (if is_envelope then v else of_argument v))) [
            | inl (d, l) ↦ absurd (ground (arith, h, k, l))
            | inr (u, l) ↦ stored is_envelope x v s e k (l ∙ ap inr (ground (arith, h, k, l)))
          ]
  ]

-- A portable workflow input is read as what was written, in an envelope or as one: `serde_json` is
-- faithful, and reads the type and the envelope back.
pub decode-encode_portable_args :
    {P V : Type 0} (c : Codecs V) (envelopes : Envelopes V) (t : Typed P V) (x : P)
    (s : Option String)
    → IsFaithful V c
    → ReadsBack t
    → Envelops c envelopes
    → encode_portable_args c envelopes t x ≡ ok s
    → decode_portable_args c envelopes t s ≡ ok x
decode-encode_portable_args c envelopes t x s f b e h =
    read_back c t envelopes.of_argument envelopes.read f b envelopes.is_envelope x s e h
