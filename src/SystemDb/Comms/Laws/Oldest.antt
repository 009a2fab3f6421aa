-- ===== src/SystemDb/Comms/Laws/Oldest.antt =====
-- `consume_oldest_notification` (crates/dbos-core/src/db/sqlite.rs).
use dbos_transact_rust.Prelude.{
  ℕ, ◌≤◌, leb, String, ◌≡◌, refl, sym, ap, Bool, true, false, none, some, List, [], ◌∷◌, arith,
  if◌then◌else◌, Bool-cases, Option-cases, inl, inr, ◌⊎◌, ◌∙◌, ◌≢◌, subst,
}
use dbos_transact_rust.Sql.{select, insert_sorted, order_by, update_where}
use dbos_transact_rust.Sql.Laws.{All, All-imp, All-unselect}
use dbos_transact_rust.Database.{or_default}
use dbos_transact_rust.Database.Schema.{NotificationRow, Database}
use dbos_transact_rust.SystemDb.Comms.{
  has_uuid, is_unconsumed, head?, oldest, as_consumed, consume_oldest_notification,
}

module _ {ℓ} {A : Type ℓ} (f : A → ℕ) where
  abbrev le : A → A → Bool
  le a b = leb (f a) (f b)

  insert_head :
      (r s : A) (ss : List A)
      → head? ss ≡ some s
      → head? (insert_sorted le r ss) ≡ (if le r s then some r else some s)
  insert_head r s [] h = absurd (cc h)
  insert_head r s (t ∷ ss) h = ground arith

  insert_some : (r : A) (ss : List A) → head? (insert_sorted le r ss) ≢ none
  insert_some r [] h = cc h
  insert_some r (t ∷ ss) h = ground arith

  empty_of_none : (P : A → Type 0) (rs : List A) → head? (order_by le rs) ≡ none → All P rs
  empty_of_none P [] h = tt
  empty_of_none P (r ∷ rs) h = absurd (insert_some r (order_by le rs) h)

  head_single : (r : A) (ss : List A) → head? ss ≡ none → head? (insert_sorted le r ss) ≡ some r
  head_single r [] h = refl
  head_single r (t ∷ ss) h = absurd (cc h)

  at_least : (s r a : A) → (if le r s then some r else some s) ≡ some a → (f a ≤ f r) × (f a ≤ f s)
  at_least s r a h = elim (Bool-cases (le r s)) [
    | inl t ↦ least_of r (ground arith) (ground arith)
    | inr u ↦ least_of s (ground arith) (ground arith)
  ]
    where
      least_of : (b : A) → some b ≡ some a → (f b ≤ f r) × (f b ≤ f s) → (f a ≤ f r) × (f a ≤ f s)
      least_of b e k = subst (λ (c : A). (f c ≤ f r) × (f c ≤ f s)) (cc e) k

  same_key : (r a : A) → some r ≡ some a → f a ≤ f r
  same_key r a e = ground arith

  -- The first row of a sorted table has the least key.
  head-least : (rs : List A) (a : A) → head? (order_by le rs) ≡ some a → All (λ r. f a ≤ f r) rs
  head-least [] a h = tt
  head-least (r ∷ rs) a h = elim (Option-cases (head? (order_by le rs))) [
    | inl e ↦ (
      same_key r a (sym (head_single r (order_by le rs) e) ∙ h),
      empty_of_none (λ s. f a ≤ f s) rs e,
    )
    | inr (s, e) ↦
        let k = at_least s r a (sym (insert_head r s (order_by le rs) e) ∙ h) in
        (
          k.0,
          All-imp (λ t. f s ≤ f t) (λ t. f a ≤ f t) rs (λ t j. omega (arith, k.1))
              (head-least rs s e),
        )
  ]

  -- The first row of a sorted table is one of its rows.
  head-All :
      (P : A → Type 0) (rs : List A) (a : A) → head? (order_by le rs) ≡ some a → All P rs → P a
  head-All P [] a h k = absurd (cc h)
  head-All P (r ∷ rs) a h k = elim (Option-cases (head? (order_by le rs))) [
    | inl e ↦ moved r a (sym (head_single r (order_by le rs) e) ∙ h) k.0
    | inr (s, e) ↦
        one_of (Bool-cases (le r s)) (sym (insert_head r s (order_by le rs) e) ∙ h)
          (head-All P rs s e k.1)
  ]
    where
      moved : (b c : A) → some b ≡ some c → P b → P c
      moved b c e p = subst P (ground arith) p

      one_of :
          {s : A}
          → (le r s ≡ true) ⊎ (le r s ≡ false)
          → (if le r s then some r else some s) ≡ some a
          → P s
          → P a
      one_of (inl t) e p = subst P (ground arith) k.0
      one_of (inr u) e p = subst P (ground arith) p

consume_none :
    (dest topic : String) (db : Database)
    → oldest dest topic db ≡ none
    → consume_oldest_notification dest topic db ≡ (none, db)
unfolding consume_oldest_notification
consume_none dest topic db e = rw (e, consume_oldest_notification) refl

pub consume_some :
    (dest topic : String) (db : Database) (n : NotificationRow)
    → oldest dest topic db ≡ some n
    → consume_oldest_notification dest topic db ≡ (
      some (n.message, or_default n.serialization),
      record db {
        notifications = update_where (has_uuid n.message_uuid) as_consumed db.notifications;
      },
    )
unfolding consume_oldest_notification
consume_some dest topic db n e = rw (e, consume_oldest_notification) refl

module _ (dest topic : String) where
  All-waiting :
      (rows : List NotificationRow)
      → All (λ n. is_unconsumed dest topic n ≡ true) (select (is_unconsumed dest topic) rows)
  All-waiting [] = tt
  All-waiting (n ∷ rows) = ground (arith, All-waiting rows)

  consumed-All :
      (uuid : String) (rows : List NotificationRow)
      → All
          (λ n. has_uuid uuid n ≡ true → n.consumed ≡ true)
          (update_where (has_uuid uuid) as_consumed rows)
  unfolding as_consumed
  consumed-All uuid [] = tt
  consumed-All uuid (n ∷ rows) = (λ h. ground arith, consumed-All uuid rows)

  -- A message that is consumed was waiting for this receiver and topic, no waiting one was older,
  -- and it does not wait any more.
  pub consume_oldest :
      (db : Database) (message serialization : String)
      → (consume_oldest_notification dest topic db).0 ≡ some (message, serialization)
      → (n : NotificationRow) × (is_unconsumed dest topic n ≡ true)
        × (n.message ≡ message)
        × All
            (λ k. is_unconsumed dest topic k ≡ true → n.created_at_epoch_ms ≤ k.created_at_epoch_ms)
            db.notifications
        × All
            (λ k. has_uuid n.message_uuid k ≡ true → k.consumed ≡ true)
            (consume_oldest_notification dest topic db).1.notifications
  unfolding oldest
  consume_oldest db message serialization h = elim (Option-cases (oldest dest topic db)) [
    | inl e ↦ absurd (nothing e)
    | inr (n, e) ↦ (
      n,
      head-All (λ k. k.created_at_epoch_ms) (λ k. is_unconsumed dest topic k ≡ true)
          (select (is_unconsumed dest topic) db.notifications) n e (All-waiting db.notifications),
      same_message n e,
      All-unselect (λ k. n.created_at_epoch_ms ≤ k.created_at_epoch_ms) (is_unconsumed dest topic)
          db.notifications
          (head-least (λ k. k.created_at_epoch_ms)
            (select (is_unconsumed dest topic) db.notifications) n e),
      subst (All (λ k. has_uuid n.message_uuid k ≡ true → k.consumed ≡ true)) (sym (after n e))
          (consumed-All n.message_uuid db.notifications),
    )
  ]
    where
      nothing : oldest dest topic db ≡ none → ⊥
      nothing e = cc (sym (ap (λ p. p.0) (consume_none dest topic db e)) ∙ h)

      same_message : (n : NotificationRow) → oldest dest topic db ≡ some n → n.message ≡ message
      same_message n e = ground (arith, sym (ap (λ p. p.0) (consume_some dest topic db n e)) ∙ h)

      after :
          (n : NotificationRow)
          → oldest dest topic db ≡ some n
          → (consume_oldest_notification dest topic db).1.notifications
            ≡ update_where (has_uuid n.message_uuid) as_consumed db.notifications
      after n e = ap (λ p. p.1.notifications) (consume_some dest topic db n e)
