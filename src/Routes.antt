-- ===== src/Routes.antt =====
-- backend/routes: how a handler answers, and the gate in front of it.
pub mod Workflow
pub mod Versions
pub mod Moves
pub mod Decide
pub mod Decided
pub mod Delete
pub mod Archives
pub mod Intake
pub mod Previews
pub mod Bulk
pub mod Categories
pub mod Keys
pub mod Catalog
use virtual_lab.Prelude.{ℕ, Option, none, some}
use virtual_lab.HttpError.{Failure, Described, describe_error}
use virtual_lab.Db.Rows.{Db, Role}
use virtual_lab.Db.Tx.{Tx, Result, ok, throw}
use virtual_lab.Auth.{Principal, require_role}

-- What a handler sends: a status and a body, or an error's status and message.
pub data Response (A : Type 0) : Type 0 where
  sent : ℕ → A → Response A
  failed : Described → Response A

-- `res.json(…)` after a transaction, `sendError(res, err, …)` in its catch.
abbrev pub answer_with : {A B : Type 0} → (A → B) → Result A × Db → Response B × Db
answer_with f (ok a, db) = (sent 200 (f a), db)
answer_with f (throw e, db) = (failed (describe_error e), db)

-- Queries on the pool outside a transaction; none of the handlers that use this writes.
abbrev pub queried : {A : Type 0} → Tx A → Db → Result A × Db
queried work db = elim (work db) [ ok (a, db') ↦ (ok a, db') | throw e ↦ (throw e, db) ]

-- `requireRole(role)` and the handler behind it.
abbrev pub authorized :
    {A : Type 0} → Role → Principal → (Db → Response A × Db) → Db → Response A × Db
authorized role principal handler db = elim (require_role role (some principal)) [
  | none ↦ handler db
  | some e ↦ (failed (describe_error e), db)
]
