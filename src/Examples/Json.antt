-- ===== src/Examples/Json.antt =====
-- A JSON library that has the envelope of one argument, and Booleans stored with it.
use dbos_transact_rust.Prelude.{
  ℕ, zero, suc, String, ◌≡◌, refl, subst, Bool, true, false, ◌⊎◌, inl, inr, [], ◌∷◌, ◌==◌,
  if◌then◌else◌,
}
use dbos_transact_rust.Serialization.{Codecs, Typed}
use dbos_transact_rust.Serialization.Laws.{IsFaithful, ReadsBack}
use dbos_transact_rust.Serialization.Arguments.{Envelopes, Envelops}
use dbos_transact_rust.Examples.Runs.{Value, nil, yes, no, text_of, is_nil}

-- JSON values, with envelopes of one argument; those within others are not printed.
pub data Json : Type 0 where
  plain args : Value → Json
  deeper : ℕ → Value → Json

abbrev json_text : Json → String ⊎ String
json_text (plain v) = text_of v
json_text (args nil) = inr "{[null]}"
json_text (args yes) = inr "{[true]}"
json_text (args no) = inr "{[false]}"
json_text (deeper n v) = inl "recursion limit"

abbrev json_of : String → String ⊎ Json
json_of s =
    if s == "true"
    then inr (plain yes)
    else if s == "false"
    then inr (plain no)
    else if s == "null"
    then inr (plain nil)
    else if s == "{[true]}"
    then inr (args yes)
    else if s == "{[false]}"
    then inr (args no)
    else if s == "{[null]}"
    then inr (args nil)
    else inl "expected value"

abbrev is_null_json : Json → Bool
is_null_json (plain v) = is_nil v
is_null_json _ = false

abbrev of_argument : Json → Json
of_argument (plain v) = args v
of_argument (args v) = deeper 0 v
of_argument (deeper n v) = deeper (suc n) v

abbrev pub json_codecs : Codecs Json
json_codecs = record {
  is_null = is_null_json;
  null = plain nil;
  to_text = json_text;
  from_text = json_of;
  base64 = λ s. s;
  from_base64 = inr;
  error_to_text = λ e. inr e.message;
  error_from_text = λ s. inl "expected value";
}

abbrev pub envelopes : Envelopes Json
envelopes = record {
  is_envelope = false;
  of_argument = of_argument;
  read = λ j. elim j [
    | plain v ↦ inl "expected an object"
    | args v ↦ inr (record { positional_args = plain v ∷ []; named_args = [] })
    | deeper n v ↦ elim n [
      | zero ↦ inr (record { positional_args = args v ∷ []; named_args = [] })
      | suc m ↦ inr (record { positional_args = deeper m v ∷ []; named_args = [] })
    ]
  ];
}

same_text : (a s : String) → ◌≡◌ {A = String ⊎ String} (inr a) (inr s) → a ≡ s
same_text a s h = cc h

printed :
    (P : Json → String → Type 0)
    → P (plain nil) "null"
    → P (plain yes) "true"
    → P (plain no) "false"
    → P (args nil) "{[null]}"
    → P (args yes) "{[true]}"
    → P (args no) "{[false]}"
    → (j : Json) (s : String) → json_text j ≡ inr s
    → P j s
printed P a b c d e f (plain nil) s h = subst (P (plain nil)) (same_text "null" s h) a
printed P a b c d e f (plain yes) s h = subst (P (plain yes)) (same_text "true" s h) b
printed P a b c d e f (plain no) s h = subst (P (plain no)) (same_text "false" s h) c
printed P a b c d e f (args nil) s h = subst (P (args nil)) (same_text "{[null]}" s h) d
printed P a b c d e f (args yes) s h = subst (P (args yes)) (same_text "{[true]}" s h) e
printed P a b c d e f (args no) s h = subst (P (args no)) (same_text "{[false]}" s h) f
printed P a b c d e f (deeper n v) s h = absurd (cc h)

null_json : (j : Json) → is_null_json j ≡ true → j ≡ plain nil
null_json (plain nil) h = refl
null_json (plain yes) h = absurd (cc h)
null_json (plain no) h = absurd (cc h)
null_json (args v) h = absurd (cc h)
null_json (deeper n v) h = absurd (cc h)

pub json-IsFaithful : IsFaithful Json json_codecs
unfolding ◌==◌
json-IsFaithful = record {
  null_value = null_json;
  text_parses = printed (λ j s. json_of s ≡ inr j) refl refl refl refl refl refl;
  base64_decodes = λ s. refl;
  base64_no_marker = printed (λ j s. (s == "__DBOS_NIL") ≡ false) refl refl refl refl refl refl;
  only_null = λ j s n h.
      printed (λ j s. is_null_json j ≡ false → (s == "null") ≡ false) (λ n. absurd (cc n))
        (λ n. refl) (λ n. refl) (λ n. refl) (λ n. refl) (λ n. refl) j s h n;
}

pub envelopes-Envelops : Envelops json_codecs envelopes
envelopes-Envelops (plain v) = (refl, refl)
envelopes-Envelops (args v) = (refl, refl)
envelopes-Envelops (deeper n v) = (refl, refl)

abbrev flag_of : Json → String ⊎ Bool
flag_of (plain yes) = inr true
flag_of (plain no) = inr false
flag_of _ = inl "expected a boolean"

abbrev pub flags : Typed Bool Json
flags = record { to_value = λ b. inr (if b then plain yes else plain no); from_value = flag_of }

same_json : (a v : Json) → ◌≡◌ {A = String ⊎ Json} (inr a) (inr v) → a ≡ v
same_json a v h = cc h

pub flags-ReadsBack : ReadsBack flags
flags-ReadsBack true v h = subst (λ w. flag_of w ≡ inr true) (same_json (plain yes) v h) refl
flags-ReadsBack false v h = subst (λ w. flag_of w ≡ inr false) (same_json (plain no) v h) refl
