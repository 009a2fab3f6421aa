-- ===== src/Sql/Order.antt =====
-- Which rows a SELECT answers with, and in which order.
use dbos_transact_rust.Prelude.{
  ◌≡◌, refl, sym, subst, ap, ◌∙◌, ◌↔◌, ◌⊎◌, Bool, true, false, inl, inr, Option, none, some, List,
  [], ◌∷◌, Bool-cases,
}
use dbos_transact_rust.Sql.{select, insert_sorted, order_by}
use dbos_transact_rust.Sql.Laws.{All, All-imp, Pairs}

module _ {A : Type 0} where
  abbrev pub OneOf : A → List A → Type 0
  OneOf a [] = ⊥
  OneOf a (x ∷ xs) = (a ≡ x) ⊎ OneOf a xs

  -- A filter without values lets everything pass, and one with values no NULL.
  abbrev pub Among : List A → Option A → Type 0
  Among [] v = Unit
  Among (x ∷ xs) none = ⊥
  Among (x ∷ xs) (some v) = OneOf v (x ∷ xs)

  pub OneOf-select :
      (p : A → Bool) (a : A) (rs : List A) → OneOf a (select p rs) ↔ (OneOf a rs × (p a ≡ true))
  OneOf-select p a rs = (selected rs, λ h. kept rs h.0 h.1)
    where
      selected : (rs : List A) → OneOf a (select p rs) → OneOf a rs × (p a ≡ true)
      selected [] = λ h. absurd h
      selected (r ∷ rs) = elim (Bool-cases (p r)) [
        | inl t ↦ rw t (λ h. elim h [
          | inl e ↦ (inl e, ap p e ∙ t)
          | inr h' ↦ let q = selected rs h' in (inr q.0, q.1)
        ])
        | inr f ↦ rw f (λ h. let q = selected rs h in (inr q.0, q.1))
      ]

      kept : (rs : List A) → OneOf a rs → p a ≡ true → OneOf a (select p rs)
      kept [] h t = h
      kept (r ∷ rs) (inl e) t = rw (sym (ap p e) ∙ t) (inl e)
      kept (r ∷ rs) (inr h) t = elim (Bool-cases (p r)) [
        | inl u ↦ rw u (inr (kept rs h t))
        | inr f ↦ rw f (kept rs h t)
      ]

  All-OneOf : (P : A → Type 0) (a : A) (rs : List A) → All P rs → OneOf a rs → P a
  All-OneOf P a [] h k = absurd k
  All-OneOf P a (r ∷ rs) h (inl e) = subst P (sym e) h.0
  All-OneOf P a (r ∷ rs) h (inr k) = All-OneOf P a rs h.1 k

  All-self : (rs : List A) → All (λ r. OneOf r rs) rs
  All-self [] = tt
  All-self (r ∷ rs) =
      (inl refl, All-imp (λ s. OneOf s rs) (λ s. OneOf s (r ∷ rs)) rs (λ s k. inr k) (All-self rs))

  module _ (le : A → A → Bool) where
    into-insert_sorted :
        (a s : A) (ss : List A) → OneOf a (s ∷ ss) → OneOf a (insert_sorted le s ss)
    into-insert_sorted a s [] h = h
    into-insert_sorted a s (x ∷ ss) h = elim (Bool-cases (le s x)) [
      | inl t ↦ rw t h
      | inr f ↦ rw f (elim h [
        | inl e ↦ inr (into-insert_sorted a s ss (inl e))
        | inr h' ↦ elim h' [ inl e ↦ inl e | inr k ↦ inr (into-insert_sorted a s ss (inr k)) ]
      ])
    ]

    All-insert_sorted :
        (P : A → Type 0) (s : A) (ss : List A) → P s → All P ss → All P (insert_sorted le s ss)
    All-insert_sorted P s [] h k = (h, tt)
    All-insert_sorted P s (x ∷ ss) h k = elim (Bool-cases (le s x)) [
      | inl t ↦ rw t (h, k)
      | inr f ↦ rw f (k.0, All-insert_sorted P s ss h k.1)
    ]

    All-order_by : (P : A → Type 0) (rs : List A) → All P rs → All P (order_by le rs)
    All-order_by P [] h = tt
    All-order_by P (r ∷ rs) h = All-insert_sorted P r (order_by le rs) h.0 (All-order_by P rs h.1)

    into-order_by : (a : A) (rs : List A) → OneOf a rs → OneOf a (order_by le rs)
    into-order_by a [] h = h
    into-order_by a (r ∷ rs) (inl e) = into-insert_sorted a r (order_by le rs) (inl e)
    into-order_by a (r ∷ rs) (inr h) =
        into-insert_sorted a r (order_by le rs) (inr (into-order_by a rs h))

    pub OneOf-order_by : (a : A) (rs : List A) → OneOf a (order_by le rs) ↔ OneOf a rs
    OneOf-order_by a rs = (
      All-OneOf (λ r. OneOf r rs) a (order_by le rs)
          (All-order_by (λ r. OneOf r rs) rs (All-self rs)),
      into-order_by a rs,
    )

    -- Sorting keeps a symmetric relation of every two rows.
    pub Pairs-order_by :
        (R : A → A → Type 0) (rs : List A)
        → ((a b : A) → R a b → R b a)
        → Pairs R rs
        → Pairs R (order_by le rs)
    Pairs-order_by R [] flip h = tt
    Pairs-order_by R (r ∷ rs) flip h =
        inserted (order_by le rs) (All-order_by (R r) rs h.0) (Pairs-order_by R rs flip h.1)
      where
        inserted : (ss : List A) → All (R r) ss → Pairs R ss → Pairs R (insert_sorted le r ss)
        inserted [] a k = (tt, tt)
        inserted (s ∷ ss) a k = elim (Bool-cases (le r s)) [
          | inl t ↦ rw t (a, k)
          | inr f ↦ rw f (All-insert_sorted (R s) r ss (flip r s a.0) k.0, inserted ss a.1 k.1)
        ]

    -- Sorting sorts, for a transitive relation that the test decides or that holds the other way.
    pub sorted-order_by :
        (R : A → A → Type 0) (rs : List A)
        → ((a b c : A) → R a b → R b c → R a c)
        → ((a b : A) → le a b ≡ true → R a b)
        → ((a b : A) → le a b ≡ false → R b a)
        → Pairs R (order_by le rs)
    sorted-order_by R [] trans below above = tt
    sorted-order_by R (r ∷ rs) trans below above =
        inserted (order_by le rs) (sorted-order_by R rs trans below above)
      where
        inserted : (ss : List A) → Pairs R ss → Pairs R (insert_sorted le r ss)
        inserted [] k = (tt, tt)
        inserted (s ∷ ss) k = elim (Bool-cases (le r s)) [
          | inl t ↦
              rw t ((below r s t, All-imp (R s) (R r) ss (λ x. trans r s x (below r s t)) k.0), k)
          | inr f ↦ rw f (All-insert_sorted (R s) r ss (above r s f) k.0, inserted ss k.1)
        ]
