-- ===== src/Db/Find.antt =====
-- The statements on single tables that several modules share.
use virtual_lab.Prelude.{Bool, not, Option, List, [], ◌∷◌, ◌&&◌, if◌then◌else◌, find, keep}
use virtual_lab.JsText.{JsText, text_eq}
use virtual_lab.Db.Rows.{Db, Scenario, Version, VersionState, Event, state_eq}

-- SELECT … FROM scenarios WHERE id = $1
unfoldable pub find_scenario : JsText → List Scenario → Option Scenario
unfolding find
find_scenario id = find (λ s. text_eq s.id id)

-- UPDATE scenarios SET … WHERE id = $1
unfoldable pub update_scenario : JsText → (Scenario → Scenario) → List Scenario → List Scenario
update_scenario id f [] = []
update_scenario id f (s ∷ ss) =
    let rest = update_scenario id f ss in if text_eq s.id id then f s ∷ rest else s ∷ rest

-- DELETE FROM scenarios WHERE id = $1, with ON DELETE CASCADE to its versions.
unfoldable pub delete_scenario : JsText → Db → Db
unfolding keep
delete_scenario id db = record db {
  scenarios = keep (λ s. not (text_eq s.id id)) db.scenarios;
  versions = keep (λ v. not (text_eq v.scenario_id id)) db.versions;
}

-- `scenario_id = $1 AND state = …`
abbrev pub is_at : JsText → VersionState → Version → Bool
is_at id st v = text_eq v.scenario_id id && state_eq v.state st

-- INSERT INTO audit_events …
abbrev pub add_event : Event → Db → Db
add_event e db = record db { events = e ∷ db.events }
