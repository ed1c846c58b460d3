-- ===== src/Safety.antt =====
-- The invariant of the catalog, for the requests that Steps names: the history is sound, and each
-- published scenario has a current archive. A moderator's PUT /api/catalog/:id that gives scenarioUrl
-- can break it, since that sets the address without a version; a creation from an archive is not
-- treated here.
pub mod Acts
pub mod Categories
pub mod Covers
pub mod Creation
pub mod Updates
pub mod Steps
pub mod Stored
use virtual_lab.Db.Rows.{Db}
use virtual_lab.Workflow.Safety.{IsServed}
use virtual_lab.Versions.Invariant.{IsSound}

pub record IsSafe (db : Db) : Type 0 where
  pub sound : IsSound db
  pub served : IsServed db
