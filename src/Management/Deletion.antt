-- ===== src/Management/Deletion.antt =====
-- Deleting a workflow with its descendants (crates/dbos-core/src/workflow/manage.rs).
use mathlib.Core.List.{append_assoc, append-nil}
use dbos_transact_rust.Prelude.{
  ℕ, zero, suc, ◌<◌, String, ◌≡◌, refl, sym, ap, subst, ◌∙◌, Bool, true, false, ◌==◌, ==_iff,
  ==_refl, inl, inr, some, List, [], ◌∷◌, ◌++◌, arith, Bool-cases,
}
use dbos_transact_rust.Sql.{exists, delete_where}
use dbos_transact_rust.Database.Schema.{WorkflowRow, Database}
use dbos_transact_rust.SystemDb.Insert.{has_id}
use dbos_transact_rust.SystemDb.Manage.{delete_workflow, delete_rows, get_workflow_children}
use dbos_transact_rust.Management.{descend, delete_all, deleted, delete_with_children}

abbrev pub In : String → List String → Type 0
In x ids = exists (λ y. y == x) ids ≡ true

In-append_left : (x : String) (xs ys : List String) → In x xs → In x (xs ++ ys)
In-append_left x [] ys h = absurd (cc h)
In-append_left x (y ∷ xs) ys h = ground (arith, In-append_left x xs ys)

In-append_right : (x : String) (xs ys : List String) → In x ys → In x (xs ++ ys)
In-append_right x [] ys h = h
In-append_right x (y ∷ xs) ys h = ground (arith, In-append_right x xs ys h)

-- The workflow itself is none of its descendants here.
pub data Descends (db : Database) : String → String → Type 0 where
  child : {x y : String} → In y (get_workflow_children x db) → Descends db x y
  below : {x y z : String} → In y (get_workflow_children x db) → Descends db y z → Descends db x z

module _ (db : Database) where
  kept :
      (fuel : ℕ) (queue acc ids : List String) (x : String)
      → descend fuel queue acc db ≡ some ids
      → In x acc
      → In x ids
  unfolding descend
  kept zero queue acc ids x e h = absurd (cc e)
  kept (suc fuel) [] acc ids x e h = subst (In x) (cc e) h
  kept (suc fuel) (id ∷ queue) acc ids x e h =
      kept fuel (queue ++ get_workflow_children id db) (acc ++ get_workflow_children id db) ids x e
        (In-append_left x acc (get_workflow_children id db) h)

  -- Below the head of the queue, the walk goes on.
  from_head :
      (fuel : ℕ) (id : String) (queue acc ids : List String) (x : String)
      → let children = get_workflow_children id db in
        descend fuel (queue ++ children) (acc ++ children) db ≡ some ids
        → ((z : String) → In z (queue ++ children) → Descends db z x → In x ids)
        → Descends db id x
        → In x ids
  from_head fuel id queue acc ids x e later (child h) =
      let children = get_workflow_children id db in
      kept fuel (queue ++ children) (acc ++ children) ids x e (In-append_right x acc children h)
  from_head fuel id queue acc ids x e later (below {y = z} h d) =
      later z (In-append_right z queue (get_workflow_children id db) h) d

  met :
      (fuel : ℕ) (queue acc ids : List String) (y x : String)
      → descend fuel queue acc db ≡ some ids
      → In y queue
      → Descends db y x
      → In x ids
  unfolding descend
  met zero queue acc ids y x e h d = absurd (cc e)
  met (suc fuel) [] acc ids y x e h d = absurd (cc h)
  met (suc fuel) (id ∷ queue) acc ids y x e h d =
      let children = get_workflow_children id db in
      let later = λ (z : String) (k : In z (queue ++ children)) (b : Descends db z x).
        met fuel (queue ++ children) (acc ++ children) ids z x e k b in
      elim (Bool-cases (id == y)) [
        | inr n ↦ later y (In-append_left y queue children (ground (arith, h, n))) d
        | inl t ↦
            from_head fuel id queue acc ids x e later
              (subst (λ z. Descends db z x) (sym ((==_iff id y).0 t)) d)
      ]

  -- Deeper workflows have a smaller rank.
  abbrev pub Ranked : (String → ℕ) → Type 0
  Ranked rank = (x y : String) → In y (get_workflow_children x db) → rank y < rank x

  abbrev Under : (String → ℕ) → ℕ → List String → Type 0
  Under rank n ids = (x : String) → In x ids → rank x < n

  abbrev EndsFrom : List String → List String → Type 0
  EndsFrom queue acc = (fuel : ℕ) × (ids : List String) × (descend fuel queue acc db ≡ some ids)

  in_append :
      (rank : String → ℕ) (n : ℕ) (xs ys : List String)
      → Under rank n xs
      → Under rank n ys
      → Under rank n (xs ++ ys)
  in_append rank n [] ys h k = k
  in_append rank n (y ∷ xs) ys h k = λ x i. elim (Bool-cases (y == x)) [
    | inl t ↦ h x (ground (arith, t))
    | inr f ↦ in_append rank n xs ys (λ z j. h z (ground (arith, j))) k x (ground (arith, i, f))
  ]

  one_more :
      (fuel : ℕ) (id : String) (queue acc ids : List String)
      → let children = get_workflow_children id db in
        descend fuel (queue ++ children) (acc ++ children) db ≡ some ids → EndsFrom (id ∷ queue) acc
  unfolding descend
  one_more fuel id queue acc ids e = (suc fuel, ids, e)

  -- The queue's front has a rank of at most `n`, its rest a smaller one.
  layer_ends :
      (rank : String → ℕ) (n : ℕ)
      → Ranked rank
      → ((queue acc : List String) → Under rank n queue → EndsFrom queue acc)
      → (front rest acc : List String) → Under rank (suc n) front
      → Under rank n rest
      → EndsFrom (front ++ rest) acc
  layer_ends rank n r deeper [] rest acc h k = deeper rest acc k
  layer_ends rank n r deeper (id ∷ front) rest acc h k =
      let children = get_workflow_children id db in
      let small : Under rank n children =
        λ x i. omega (arith, r id x i, h id (ground (arith, ==_refl id))) in
      let (fuel, ids, e) =
        layer_ends rank n r deeper front (rest ++ children) (acc ++ children)
          (λ x i. h x (ground (arith, i))) (in_append rank n rest children k small) in
      one_more fuel id (front ++ rest) acc ids (
        ap (λ queue. descend fuel queue (acc ++ children) db) (append_assoc front rest children)
        ∙ e)

  descend_ends :
      (rank : String → ℕ) (n : ℕ) (queue acc : List String)
      → Ranked rank
      → Under rank n queue
      → EndsFrom queue acc
  descend_ends rank zero [] acc r h = (1, acc, unfold descend in refl)
  descend_ends rank zero (id ∷ queue) acc r h =
      absurd (omega (arith, h id (ground (arith, ==_refl id))))
  descend_ends rank (suc n) queue acc r h =
      subst (λ q. EndsFrom q acc) (append-nil queue)
        (layer_ends rank n r (λ q a k. descend_ends rank n q a r k) queue [] acc h
          (λ x i. absurd (cc i)))

still_gone :
    (p q : WorkflowRow → Bool) (rows : List WorkflowRow)
    → exists q rows ≡ false
    → exists q (delete_where p rows) ≡ false
still_gone p q [] h = refl
still_gone p q (r ∷ rows) h = ground (arith, h, still_gone p q rows)

now_gone :
    (p : WorkflowRow → Bool) (rows : List WorkflowRow) → exists p (delete_where p rows) ≡ false
now_gone p [] = refl
now_gone p (r ∷ rows) = ground (arith, now_gone p rows)

abbrev pub Gone : String → Database → Type 0
Gone x db = exists (has_id x) db.workflow_status ≡ false

stays-Gone :
    (ids : List String) (x : String) (db : Database) → Gone x db → Gone x (delete_all ids db)
unfolding delete_all delete_workflow delete_rows
stays-Gone [] x db h = h
stays-Gone (id ∷ ids) x db h =
    stays-Gone ids x (delete_workflow id db)
      (still_gone (has_id id) (has_id x) db.workflow_status h)

all-Gone : (ids : List String) (x : String) (db : Database) → In x ids → Gone x (delete_all ids db)
unfolding delete_all delete_workflow delete_rows
all-Gone [] x db h = absurd (cc h)
all-Gone (id ∷ ids) x db h = elim (Bool-cases (id == x)) [
  | inl t ↦ stays-Gone ids x (delete_workflow id db) (
      subst
        (λ (z : String). exists (has_id z) (delete_where (has_id id) db.workflow_status) ≡ false)
        ((==_iff id x).0 t) (now_gone (has_id id) db.workflow_status))
  | inr n ↦ all-Gone ids x (delete_workflow id db) (ground (arith, h, n))
]

-- A deletion with children ends and leaves neither the workflow nor any of its descendants: the
-- walk over the children ends with enough fuel, when every child has a smaller rank than its
-- parent, so that no workflow descends from itself.
pub delete_with_children_all :
    (db : Database) (id : String) (rank : String → ℕ)
    → Ranked db rank
    → (fuel : ℕ) × (after : Database) × (delete_with_children fuel id true db ≡ some after)
      × Gone id after
      × ((x : String) → Descends db id x → Gone x after)
unfolding delete_with_children deleted
delete_with_children_all db id rank r =
    let here : In id (id ∷ []) = ground (arith, ==_refl id) in
    let (fuel, ids, e) =
      descend_ends db rank (suc (rank id)) (id ∷ []) (id ∷ []) r (λ x i. only id x rank i) in
    (
      fuel,
      delete_all ids db,
      rw e refl,
      all-Gone ids id db (kept db fuel (id ∷ []) (id ∷ []) ids id e here),
      λ x d. all-Gone ids x db (met db fuel (id ∷ []) (id ∷ []) ids id x e here d),
    )
  where
    only : (y x : String) (f : String → ℕ) → In x (y ∷ []) → f x < suc (f y)
    only y x f i = subst (λ z. f z < suc (f y)) ((==_iff y x).0 (ground (arith, i))) (omega arith)
