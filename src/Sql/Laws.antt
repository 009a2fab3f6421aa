-- ===== src/Sql/Laws.antt =====
-- Predicates on tables, and how statements keep them.
use dbos_transact_rust.Prelude.{
  ℕ, zero, suc, ◌≤◌, ◌≡◌, refl, Bool, true, false, ◌||◌, ◌&&◌, none, some, List, [], ◌∷◌, map,
  if◌then◌else◌, arith,
}
use dbos_transact_rust.Sql.{select, delete_where, exists, first, insert_row, take, length}

module _ {ℓ κ} {A : Type ℓ} where
  abbrev pub All : (A → Type κ) → List A → Type κ
  All P [] = Unit
  All P (r ∷ rs) = P r × All P rs

  -- Every two rows, the earlier first.
  abbrev pub Pairs : (A → A → Type κ) → List A → Type κ
  Pairs R [] = Unit
  Pairs R (r ∷ rs) = All (R r) rs × Pairs R rs

module _ {ℓ κ} {A : Type ℓ} where
  pub All-map :
      (P : A → Type κ) (Q : A → Type κ) (g : A → A) (rs : List A)
      → ((r : A) → P r → Q (g r))
      → All P rs
      → All Q (map g rs)
  All-map P Q g [] keep h = tt
  All-map P Q g (r ∷ rs) keep h = (keep r h.0, All-map P Q g rs keep h.1)

  pub All-imp : (P Q : A → Type κ) (rs : List A) → ((r : A) → P r → Q r) → All P rs → All Q rs
  All-imp P Q [] imp h = tt
  All-imp P Q (r ∷ rs) imp h = (imp r h.0, All-imp P Q rs imp h.1)

  pub All-insert_row :
      (P : A → Type κ) (r : A) (rs : List A) → All P rs → P r → All P (insert_row r rs)
  All-insert_row P r [] h p = (p, tt)
  All-insert_row P r (s ∷ rs) h p = (h.0, All-insert_row P r rs h.1 p)

  pub All-select : (P : A → Type κ) (p : A → Bool) (rs : List A) → All P rs → All P (select p rs)
  All-select P p [] h = tt
  All-select P p (r ∷ rs) h = ground (arith, All-select P p rs h.1)

  pub All-unselect :
      (P : A → Type κ) (p : A → Bool) (rs : List A)
      → All P (select p rs)
      → All (λ r. p r ≡ true → P r) rs
  All-unselect P p [] h = tt
  All-unselect P p (r ∷ rs) h = (λ u. ground (arith, u), ground (arith, All-unselect P p rs))

  -- Changing every row keeps a relation of every two rows that the change keeps.
  pub Pairs-map :
      (R : A → A → Type κ) (g : A → A) (rs : List A)
      → ((r s : A) → R r s → R (g r) (g s))
      → Pairs R rs
      → Pairs R (map g rs)
  Pairs-map R g [] keep h = tt
  Pairs-map R g (r ∷ rs) keep h =
      (All-map (R r) (R (g r)) g rs (keep r) h.0, Pairs-map R g rs keep h.1)

  pub Pairs-insert_row :
      (R : A → A → Type κ) (r : A) (rs : List A)
      → Pairs R rs
      → All (λ s. R s r) rs
      → Pairs R (insert_row r rs)
  Pairs-insert_row R r [] h a = (tt, tt)
  Pairs-insert_row R r (s ∷ rs) h a =
      (All-insert_row (R s) r rs h.0 a.0, Pairs-insert_row R r rs h.1 a.1)

  pub Pairs-select :
      (R : A → A → Type κ) (p : A → Bool) (rs : List A) → Pairs R rs → Pairs R (select p rs)
  Pairs-select R p [] h = tt
  Pairs-select R p (r ∷ rs) h = ground (arith, All-select (R r) p rs h.0, Pairs-select R p rs h.1)

module _ {ℓ} {A : Type ℓ} where
  pub exists-map :
      (p : A → Bool) (g : A → A) (rs : List A)
      → ((r : A) → p (g r) ≡ p r)
      → exists p (map g rs) ≡ exists p rs
  exists-map p g [] same = refl
  exists-map p g (r ∷ rs) same = rw (same r, exists-map p g rs same)

  pub exists-insert_row :
      (p : A → Bool) (r : A) (rs : List A) → exists p (insert_row r rs) ≡ (exists p rs || p r)
  exists-insert_row p r [] = ground arith
  exists-insert_row p r (s ∷ rs) = ground (arith, exists-insert_row p r rs)

  -- No row passes a test that none passes.
  pub exists-none : (p : A → Bool) (rs : List A) → exists p rs ≡ false → All (λ r. p r ≡ false) rs
  exists-none p [] h = tt
  exists-none p (r ∷ rs) h = ground (arith, exists-none p rs)

  pub first-none : (p : A → Bool) (rs : List A) → first p rs ≡ none → exists p rs ≡ false
  first-none p [] h = refl
  first-none p (r ∷ rs) h = ground (arith, first-none p rs)

  pub first-some :
      (p : A → Bool) (rs : List A) (r : A)
      → first p rs ≡ some r
      → (p r ≡ true) × (exists p rs ≡ true)
  first-some p [] r h = absurd (ground arith)
  first-some p (s ∷ rs) r h = ground (arith, first-some p rs r)

  pub first-map :
      (p : A → Bool) (g : A → A) (rs : List A) (r : A)
      → ((s : A) → p (g s) ≡ p s)
      → first p rs ≡ some r
      → first p (map g rs) ≡ some (g r)
  first-map p g [] r same h = absurd (ground arith)
  first-map p g (s ∷ rs) r same h = ground (arith, same s, first-map p g rs r same)

  pub first-map-none :
      (p : A → Bool) (g : A → A) (rs : List A)
      → ((s : A) → p (g s) ≡ p s)
      → first p rs ≡ none
      → first p (map g rs) ≡ none
  first-map-none p g [] same h = refl
  first-map-none p g (s ∷ rs) same h = ground (arith, same s, first-map-none p g rs same)

  pub first-insert_row-some :
      (p : A → Bool) (r : A) (rs : List A) (s : A)
      → first p rs ≡ some s
      → first p (insert_row r rs) ≡ some s
  first-insert_row-some p r [] s h = absurd (ground arith)
  first-insert_row-some p r (t ∷ rs) s h = ground (arith, first-insert_row-some p r rs s)

  pub first-insert_row-none :
      (p : A → Bool) (r : A) (rs : List A)
      → first p rs ≡ none
      → first p (insert_row r rs) ≡ (if p r then some r else none)
  first-insert_row-none p r [] h = refl
  first-insert_row-none p r (t ∷ rs) h = ground (arith, first-insert_row-none p r rs)

  pub length-take_le : (n : ℕ) (rs : List A) → length (take n rs) ≤ n
  length-take_le zero rs = omega arith
  length-take_le (suc n) [] = omega arith
  length-take_le (suc n) (r ∷ rs) = omega (arith, length-take_le n rs)

  -- A row that none of the deleted ones answers for is still there.
  pub exists-delete_where :
      (p q : A → Bool) (rs : List A)
      → exists q rs ≡ true
      → exists (λ r. p r && q r) rs ≡ false
      → exists q (delete_where p rs) ≡ true
  exists-delete_where p q [] h k = h
  exists-delete_where p q (r ∷ rs) h k = ground (arith, exists-delete_where p q rs)

  -- The rows that are left pass the negated test.
  pub All-delete_where : (p : A → Bool) (rs : List A) → All (λ r. p r ≡ false) (delete_where p rs)
  All-delete_where p [] = tt
  All-delete_where p (r ∷ rs) = ground (arith, All-delete_where p rs)
