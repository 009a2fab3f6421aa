-- ===== src/Sql.antt =====
-- What the SQL statements of crates/dbos-core/src/db/sqlite.rs do to one table: a table is the
-- list of its rows, in an order that SQL leaves open (every theorem is about every such list).
pub mod Laws
pub mod Order
use dbos_transact_rust.Prelude.{
  ℕ, zero, suc, ◌+◌, Bool, true, false, ◌||◌, Option, none, some, List, [], ◌∷◌, ◌++◌, map,
  if◌then◌else◌, not,
}

module _ {ℓ} {A : Type ℓ} where
  -- UPDATE … SET f WHERE p
  abbrev pub update_where : (A → Bool) → (A → A) → List A → List A
  update_where p f = map λ r. if p r then f r else r

  -- SELECT … WHERE p
  abbrev pub select : (A → Bool) → List A → List A
  select p [] = []
  select p (r ∷ rs) = if p r then r ∷ select p rs else select p rs

  -- DELETE … WHERE p
  abbrev pub delete_where : (A → Bool) → List A → List A
  delete_where p = select λ r. not (p r)

  -- SELECT COUNT(*) … WHERE p
  abbrev pub count_where : (A → Bool) → List A → ℕ
  count_where p [] = 0
  count_where p (r ∷ rs) = if p r then suc (count_where p rs) else count_where p rs

  -- SELECT 1 … WHERE p
  abbrev pub exists : (A → Bool) → List A → Bool
  exists p [] = false
  exists p (r ∷ rs) = p r || exists p rs

  -- `fetch_optional`
  abbrev pub first : (A → Bool) → List A → Option A
  first p [] = none
  first p (r ∷ rs) = if p r then some r else first p rs

  -- INSERT
  abbrev pub insert_row : A → List A → List A
  insert_row r rs = rs ++ r ∷ []

  abbrev pub insert_sorted : (A → A → Bool) → A → List A → List A
  insert_sorted le r [] = r ∷ []
  insert_sorted le r (s ∷ ss) = if le r s then r ∷ s ∷ ss else s ∷ insert_sorted le r ss

  -- ORDER BY, for the order `le` (rows that tie keep their order)
  abbrev pub order_by : (A → A → Bool) → List A → List A
  order_by le [] = []
  order_by le (r ∷ rs) = insert_sorted le r (order_by le rs)

  -- LIMIT and OFFSET
  abbrev pub take : ℕ → List A → List A
  take zero rs = []
  take (suc n) [] = []
  take (suc n) (r ∷ rs) = r ∷ take n rs

  abbrev pub drop : ℕ → List A → List A
  drop zero rs = rs
  drop (suc n) [] = []
  drop (suc n) (r ∷ rs) = drop n rs

  abbrev pub length : List A → ℕ
  length [] = 0
  length (r ∷ rs) = suc (length rs)
