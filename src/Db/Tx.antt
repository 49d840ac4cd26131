-- ===== src/Db/Tx.antt =====
-- Queries that read and write the database and may throw, and `ds.transaction`.
use course_project.Base.{Result, ok, err}
use course_project.Db.Rows.{Db}

-- The database comes back also from a call that throws: what it wrote so far is there until the
-- transaction is rolled back.
abbrev pub Query : Type 0 → Type 0 → Type 0
Query E A = Db → Result E A × Db

module _ {E : Type 0} where
  abbrev pub pure : {A : Type 0} → A → Query E A
  pure a db = (ok a, db)

  abbrev pub throw : {A : Type 0} → E → Query E A
  throw e db = (err e, db)

  abbrev pub then : {A B : Type 0} → Result E A × Db → (A → Query E B) → Result E B × Db
  then (ok a, db) f = f a db
  then (err e, db) f = (err e, db)

  infixl 5 ◌>>=◌ ◌>>◌
  abbrev pub ◌>>=◌ : {A B : Type 0} → Query E A → (A → Query E B) → Query E B
  ◌>>=◌ m f db = then (m db) f

  abbrev pub ◌>>◌ : {A B : Type 0} → Query E A → Query E B → Query E B
  m >> k = m >>= λ _. k

  -- Commit keeps what the call wrote. Rollback restores every table and leaves the sequences.
  abbrev pub settle : {A : Type 0} → Db → Result E A × Db → Result E A × Db
  settle before (ok a, after) = (ok a, after)
  settle before (err e, after) = (err e, record before { seq = after.seq })

  unfoldable pub transaction : {A : Type 0} → Query E A → Query E A
  transaction m db = settle db (m db)
