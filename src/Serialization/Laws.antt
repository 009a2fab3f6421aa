-- ===== src/Serialization/Laws.antt =====
-- Round trips of values (crates/dbos-core/src/serialization.rs).
use dbos_transact_rust.Prelude.{
  String, ◌≡◌, refl, sym, ap, subst, ◌∙◌, Bool, true, false, ◌==◌, ==_refl, ◌⊎◌, inl, inr, Option,
  none, some, arith, if◌then◌else◌, Bool-cases,
}
use dbos_transact_rust.Database.{ok}
use dbos_transact_rust.Serialization.{
  Codecs, Typed, SerializeError, Serializer, nil_marker, portable_serializer_name, framed,
  json_decode, json_serializer, portable_decode, portable_serializer, resolve_encoder,
  resolve_decoder, encode, decode,
}

-- What the program relies on in `serde_json` and base64: what is printed parses back, only null
-- prints as `null`, and no base64 text is the nil marker.
pub record IsFaithful (V : Type 0) (c : Codecs V) : Type 0 where
  pub null_value : (v : V) → c.is_null v ≡ true → v ≡ c.null
  pub text_parses : (v : V) (s : String) → c.to_text v ≡ inr s → c.from_text s ≡ inr v
  pub base64_decodes : (s : String) → c.from_base64 (c.base64 s) ≡ inr s
  pub base64_no_marker :
      (v : V) (s : String) → c.to_text v ≡ inr s → (c.base64 s == nil_marker) ≡ false
  pub only_null :
      (v : V) (s : String) → c.is_null v ≡ false → c.to_text v ≡ inr s → (s == "null") ≡ false

-- A type that `serde` reads back as it wrote it.
abbrev pub ReadsBack : {R V : Type 0} → Typed R V → Type 0
ReadsBack {R} {V} t = (x : R) (v : V) → t.to_value x ≡ inr v → t.from_value v ≡ inr x

abbrev pub RoundTrips : {V : Type 0} → Serializer V → Type 0
RoundTrips {V} ser =
    (v : V) (s : Option String) → ser.encode_value v ≡ inr s → ser.decode_value s ≡ inr v

-- A custom serializer reads back what it wrote, and does not take the portable one's name.
abbrev pub CustomFits : {V : Type 0} → Option (Serializer V) → Type 0
CustomFits none = Unit {0}
CustomFits (some s) = RoundTrips s × ((s.name == portable_serializer_name) ≡ false)

pub sum-cases {ℓ κ} :
    {A : Type ℓ} {B : Type κ} (s : A ⊎ B) → ((a : A) × (s ≡ inl a)) ⊎ ((b : B) × (s ≡ inr b))
sum-cases (inl a) = inl (a, refl)
sum-cases (inr b) = inr (b, refl)

module _ {V : Type 0} (c : Codecs V) where
  inr_of : (a b : Option String) → ◌≡◌ {A = SerializeError ⊎ Option String} (inr a) (inr b) → a ≡ b
  inr_of a b e = cc e

  -- What a built-in serializer stores: its nil word, or the wrapped text.
  pub stored_cases :
      (P : Option String → Type 0) (nil : String) (wrap : String → String) (v : V)
      (s : Option String)
      → (c.is_null v ≡ true → P (some nil))
      → ((u : String) → c.is_null v ≡ false → c.to_text v ≡ inr u → P (some (wrap u)))
      → (if c.is_null v then inr (some nil) else framed wrap (c.to_text v)) ≡ inr s
      → P s
  stored_cases P nil wrap v s empty text h = elim (Bool-cases (c.is_null v)) [
    | inl t ↦ subst P (inr_of (some nil) s (sym (rw t refl) ∙ h)) (empty t)
    | inr n ↦ elim (sum-cases (c.to_text v)) [
      | inl (e, k) ↦ absurd (fails e n k)
      | inr (u, k) ↦ subst P (inr_of (some (wrap u)) s (sym (rw (n, k) refl) ∙ h)) (text u n k)
    ]
  ]
    where
      fails : (e : String) → c.is_null v ≡ false → c.to_text v ≡ inl e → ⊥
      fails e n k = ground arith

  pub json-RoundTrips : IsFaithful V c → RoundTrips (json_serializer c)
  unfolding json_serializer ◌==◌
  json-RoundTrips f v s h =
      stored_cases (λ s. json_decode c s ≡ inr v) nil_marker c.base64 v s
        (λ t. ap inr (sym (f.null_value v t)))
        (λ u n k. rw (f.base64_no_marker v u k, f.base64_decodes u, f.text_parses v u k) refl) h

  portable-RoundTrips : IsFaithful V c → RoundTrips (portable_serializer c)
  unfolding portable_serializer ◌==◌
  portable-RoundTrips f v s h =
      stored_cases (λ s. portable_decode c s ≡ inr v) "null" (λ t. t) v s
        (λ t. ap inr (sym (f.null_value v t)))
        (λ u n k. rw (f.only_null v u n k, f.text_parses v u k) refl) h

  -- The decoder that the stored tag selects is the serializer that wrote it.
  resolve_same :
      (is_portable : Bool) (custom : Option (Serializer V))
      → CustomFits custom
      → resolve_decoder c (resolve_encoder c is_portable custom).name custom
        ≡ inr (resolve_encoder c is_portable custom)
  unfolding resolve_decoder resolve_encoder portable_serializer json_serializer
  resolve_same true custom h = rw (==_refl portable_serializer_name) refl
  resolve_same false none h = unfold ◌==◌ in refl
  resolve_same false (some s) h = rw (h.1, ==_refl s.name) refl

  encoder-RoundTrips :
      (is_portable : Bool) (custom : Option (Serializer V))
      → IsFaithful V c
      → CustomFits custom
      → RoundTrips (resolve_encoder c is_portable custom)
  unfolding resolve_encoder
  encoder-RoundTrips true custom f h = portable-RoundTrips f
  encoder-RoundTrips false none f h = json-RoundTrips f
  encoder-RoundTrips false (some s) f h = h.0

module _ {R V : Type 0} (t : Typed R V) where
  pub decodes :
      (ser : Serializer V) (x : R) (s : Option String)
      → ReadsBack t
      → RoundTrips ser
      → encode t ser x ≡ ok s
      → decode t ser s ≡ ok x
  unfolding encode decode
  decodes ser x s r b h = elim (sum-cases (t.to_value x)) [
    | inl (e, k) ↦ absurd (unprintable e k)
    | inr (v, k) ↦ elim (sum-cases (ser.encode_value v)) [
      | inl (e, l) ↦ absurd (unencodable v e k l)
      | inr (u, l) ↦ rw (b v s (l ∙ ap inr (same v u k l)), r x v k) refl
    ]
  ]
    where
      unprintable : (e : String) → t.to_value x ≡ inl e → ⊥
      unprintable e k = ground arith

      unencodable :
          (v : V) (e : SerializeError) → t.to_value x ≡ inr v → ser.encode_value v ≡ inl e → ⊥
      unencodable v e k l = ground arith

      same : (v : V) (u : Option String) → t.to_value x ≡ inr v → ser.encode_value v ≡ inr u → u ≡ s
      same v u k l = ground arith

-- A value that a workflow or a step stores is read back as it was: the stored tag selects the
-- serializer that wrote it, and that decodes the text. `serde_json` and base64 are faithful, and
-- a custom serializer reads back what it wrote and is not named `portable_json`.
pub decode-encode :
    {R V : Type 0} (c : Codecs V) (t : Typed R V) (is_portable : Bool)
    (custom : Option (Serializer V)) (x : R) (s : Option String)
    → IsFaithful V c
    → ReadsBack t
    → CustomFits custom
    → encode t (resolve_encoder c is_portable custom) x ≡ ok s
    → (decoder : Serializer V) × (resolve_decoder c
          (resolve_encoder c is_portable custom).name
          custom
        ≡ inr decoder)
      × (decode t decoder s ≡ ok x)
decode-encode c t is_portable custom x s f r h e = (
  resolve_encoder c is_portable custom,
  resolve_same c is_portable custom h,
  decodes t (resolve_encoder c is_portable custom) x s r
      (encoder-RoundTrips c is_portable custom f h) e,
)
