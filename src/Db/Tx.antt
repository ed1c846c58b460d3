-- ===== src/Db/Tx.antt =====
-- backend/db.js: work on the database that may throw, and `inTransaction`.
use virtual_lab.Prelude.{Bool, true, false, Option, none, some}
use virtual_lab.HttpError.{Failure}
use virtual_lab.Db.Rows.{Db}

pub data Result {ℓ} (A : Type ℓ) : Type ℓ where
  ok : A → Result A
  throw : Failure → Result A

-- The work of a transaction: it throws, or returns a value and the tables it leaves.
abbrev pub Tx : Type 0 → Type 0
Tx A = Db → Result (A × Db)

module _ {A : Type 0} where
  abbrev pub pure : A → Tx A
  pure a db = ok (a, db)

  abbrev pub fail : Failure → Tx A
  fail e db = throw e

  abbrev pub gets : (Db → A) → Tx A
  gets f db = ok (f db, db)

  -- `if (!rows[0]) throw e`
  abbrev pub or_fail : Option A → Failure → Tx A
  or_fail none e = fail e
  or_fail (some a) e = pure a

abbrev pub modify : (Db → Db) → Tx (Unit {0})
modify f db = ok (tt, f db)

-- `if (condition) throw e`
abbrev pub throw_if : Bool → Failure → Tx (Unit {0})
throw_if true e = fail e
throw_if false e = pure tt

infixl 5 ◌>>=◌ ◌>>◌
abbrev pub ◌>>=◌ : {A B : Type 0} → Tx A → (A → Tx B) → Tx B
◌>>=◌ m f db = elim (m db) [ ok (a, db') ↦ f a db' | throw e ↦ throw e ]

abbrev pub ◌>>◌ : {A B : Type 0} → Tx A → Tx B → Tx B
m >> k = m >>= λ _. k

-- BEGIN … COMMIT; on a throw ROLLBACK, so the tables are as they were, and the error goes on.
unfoldable pub in_transaction : {A : Type 0} → Tx A → Db → Result A × Db
in_transaction work db = elim (work db) [ ok (a, db') ↦ (ok a, db') | throw e ↦ (throw e, db) ]
