-- ===== src/SystemDb/Comms/Laws.antt =====
-- What a reader of streams and messages relies on (crates/dbos-core/src/db/sqlite.rs).
pub mod Oldest
use dbos_transact_rust.Prelude.{
  ℕ, suc, ◌≤◌, ℤ, pos, leb_ℤ, ltb, leb, String, ◌≡◌, refl, ap, ◌∙◌, Bool, true, false, not, ◌&&◌,
  ◌==◌, ==_refl, ==_iff, Option, none, some, List, [], ◌∷◌, arith, if◌then◌else◌, Bool-cases,
  concat, inl, inr,
}
use dbos_transact_rust.Error.{workflow_execution}
use dbos_transact_rust.Error.Make
use dbos_transact_rust.Sql.{select, exists, insert_row}
use dbos_transact_rust.Sql.Laws.{exists-insert_row}
use dbos_transact_rust.Database.{Result, ok, err, or_default, foreign_key_violation}
use dbos_transact_rust.Database.Schema.{StreamRow, Database}
use dbos_transact_rust.SystemDb.Insert.{has_id}
use dbos_transact_rust.SystemDb.Comms.{
  stream_closed_sentinel, in_stream, closes, next_offset, write_stream, read_entries, read_stream,
}

-- The row that a write adds.
abbrev pub entry : String → String → String → ℤ → String → Database → StreamRow
entry id key value step serialization db = record {
  workflow_uuid = id;
  key = key;
  value = value;
  position = next_offset (select (in_stream id key) db.streams);
  function_id = step;
  serialization = some serialization;
}

abbrev closed : String → Result (Unit {0})
closed key =
    err (Make.new workflow_execution (concat ("stream '" ∷ key ∷ "' is already closed" ∷ [])))

-- The branches of `write_stream`.
write_cases {ℓ} :
    (P : Result (Unit {0}) × Database → Type ℓ) (id key value : String) (step : ℤ)
    (serialization : String) (db : Database)
    → (exists (closes id key) db.streams ≡ true → P (closed key, db))
    → (exists (closes id key) db.streams ≡ false
        → P (
          ok tt,
          record db { streams = insert_row (entry id key value step serialization db) db.streams },
        ))
    → P (err (foreign_key_violation "failed to insert stream entry"), db)
    → P (write_stream id key value step serialization db)
unfolding write_stream
write_cases P id key value step serialization db shut open' unowned =
    elim (Bool-cases (exists (closes id key) db.streams)) [
      | inl t ↦ rw t (shut t)
      | inr f ↦ elim (Bool-cases (exists (has_id id) db.workflow_status)) [
        | inl t ↦ rw f (rw t (open' f))
        | inr g ↦ rw f (rw g unowned)
      ]
    ]

-- No entry of the stream is at the next offset or after it.
none_later :
    (id key : String) (n : ℕ) (rows : List StreamRow)
    → next_offset (select (in_stream id key) rows) ≤ n
    → select (λ s. in_stream id key s && leb_ℤ (pos n) (pos s.position)) rows ≡ []
unfolding next_offset
none_later id key n [] h = refl
none_later id key n (s ∷ rows) h = ground (arith, none_later id key n rows)

pub select-insert_row {ℓ} :
    {A : Type ℓ} (p : A → Bool) (r : A) (rs : List A)
    → select p rs ≡ []
    → p r ≡ true
    → select p (insert_row r rs) ≡ r ∷ []
select-insert_row p r [] h t = rw t refl
select-insert_row p r (s ∷ rs) h t = elim (Bool-cases (p s)) [
  | inl u ↦ absurd (cc (h, u))
  | inr f ↦ ground (arith, select-insert_row p r rs)
]

abbrev Reads : String → String → String → String → Database → Result (Unit {0}) × Database → Type 0
Reads id key value serialization db (ok u, after) =
    let n = next_offset (select (in_stream id key) db.streams) in
    read_stream id key (pos n) after ≡ ((value, n, serialization) ∷ [], false)
Reads id key value serialization db (err e, after) = Unit

-- What a successful write appends to a stream is what a reader that starts at its offset reads,
-- and all of it; the offset is one after the last, and the value is not the closing sentinel.
pub read-write :
    (id key value : String) (step : ℤ) (serialization : String) (db : Database)
    → (value == stream_closed_sentinel) ≡ false
    → (write_stream id key value step serialization db).0 ≡ ok tt
    → let n = next_offset (select (in_stream id key) db.streams) in
      read_stream id key (pos n) (write_stream id key value step serialization db).1
      ≡ ((value, n, serialization) ∷ [], false)
read-write id key value step serialization db v h =
    of_reads (write_stream id key value step serialization db)
      (write_cases (Reads id key value serialization db) id key value step serialization db
        (λ t. tt) (λ f. reads) tt)
      h
  where
    n : ℕ
    n = next_offset (select (in_stream id key) db.streams)

    reads :
        read_stream id key
          (pos n)
          (record db { streams = insert_row (entry id key value step serialization db) db.streams })
        ≡ ((value, n, serialization) ∷ [], false)
    reads =
        unfold read_stream read_entries in
        rw
          (
            select-insert_row (λ s. in_stream id key s && leb_ℤ (pos n) (pos s.position))
                (entry id key value step serialization db) db.streams
                (none_later id key n db.streams (omega arith))
                (ground (arith, ==_refl id, ==_refl key)),
            v,
          )
          refl

    of_reads :
        (q : Result (Unit {0}) × Database)
        → Reads id key value serialization db q
        → q.0 ≡ ok tt
        → read_stream id key (pos n) q.1 ≡ ((value, n, serialization) ∷ [], false)
    of_reads (ok u, after) k e = k
    of_reads (err d, after) k e = absurd (cc e)

abbrev Shuts : String → String → String → Result (Unit {0}) × Database → Type 0
Shuts id key value (ok u, after) =
    value ≡ stream_closed_sentinel → exists (closes id key) after.streams ≡ true
Shuts id key value (err e, after) = Unit

write-Shuts :
    (id key value : String) (step : ℤ) (serialization : String) (db : Database)
    → Shuts id key value (write_stream id key value step serialization db)
write-Shuts id key value step serialization db =
    write_cases (Shuts id key value) id key value step serialization db (λ t. tt)
      (λ f e. ground (
        arith,
        exists-insert_row (closes id key) (entry id key value step serialization db) db.streams,
        ==_refl id,
        ==_refl key,
        ==_iff value stream_closed_sentinel,
      ))
      tt

-- A stream that was closed by a successful write of the sentinel takes no further entry: every
-- later write is refused and changes nothing.
pub write_closed :
    (id key : String) (step : ℤ) (serialization : String) (db : Database) (value : String)
    (later : ℤ) (again : String)
    → (write_stream id key stream_closed_sentinel step serialization db).0 ≡ ok tt
    → let after = (write_stream id key stream_closed_sentinel step serialization db).1 in
      write_stream id key value later again after ≡ (
        err (Make.new workflow_execution (concat ("stream '" ∷ key ∷ "' is already closed" ∷ []))),
        after,
      )
write_closed id key step serialization db value later again h =
    refused (write_stream id key stream_closed_sentinel step serialization db)
      (write-Shuts id key stream_closed_sentinel step serialization db) h
  where
    refused :
        (q : Result (Unit {0}) × Database)
        → Shuts id key stream_closed_sentinel q
        → q.0 ≡ ok tt
        → write_stream id key value later again q.1 ≡ (closed key, q.1)
    refused (ok u, after) k e = unfold write_stream in rw (k refl) refl
    refused (err d, after) k e = absurd (cc e)
