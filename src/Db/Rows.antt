-- ===== src/Db/Rows.antt =====
-- Rows of the tables `scenarios`, `scenario_versions`, `publish_keys`, `categories`, `audit_events`.
-- Columns that no modelled statement reads or writes (created_at, display_order) are left out.
use virtual_lab.Prelude.{ℕ, Bool, true, false, Option, List}
use virtual_lab.JsText.{JsText, utf16}

-- CHECK (role IN ('author', 'moderator'))
pub data Role : Type 0 where
  author moderator : Role

-- CHECK (status IN ('draft', 'review', 'published', 'rejected'))
pub data Status : Type 0 where
  draft review published rejected : Status

-- CHECK (state IN ('current', 'pending', 'archived'))
pub data VersionState : Type 0 where
  current pending archived : VersionState

abbrev pub status_eq : Status → Status → Bool
status_eq draft draft = true
status_eq review review = true
status_eq published published = true
status_eq rejected rejected = true
status_eq _ _ = false

abbrev pub state_eq : VersionState → VersionState → Bool
state_eq current current = true
state_eq pending pending = true
state_eq archived archived = true
state_eq _ _ = false

unfoldable pub status_name : Status → JsText
status_name draft = utf16 "draft"
status_name review = utf16 "review"
status_name published = utf16 "published"
status_name rejected = utf16 "rejected"

unfoldable pub state_name : VersionState → JsText
state_name current = utf16 "current"
state_name pending = utf16 "pending"
state_name archived = utf16 "archived"

unfoldable pub role_name : Role → JsText
role_name author = utf16 "author"
role_name moderator = utf16 "moderator"

-- Columns of `scenarios` that say which archive it serves.
pub record Archive : Type 0 where
  pub scenario_url : JsText
  pub sha256 : Option JsText
  pub bytes : Option ℕ
  pub manifest_id : Option JsText
  pub manifest_version : Option JsText
  pub manifest_engine_version : Option JsText
  pub graded : Bool
  pub is_local : Bool

-- An element of the JSON column `features`.
pub record Feature : Type 0 where
  pub icon : JsText
  pub title : JsText
  pub subtitle : Option JsText

-- Columns of `scenarios` that only describe it.
pub record Card : Type 0 where
  pub title : JsText
  pub description : JsText
  pub full_description : JsText
  pub category : JsText
  pub category_label : JsText
  pub image_url : JsText
  pub manifest_url : Option JsText
  pub version : Option JsText
  pub author : Option JsText
  pub features : List Feature

pub record Scenario : Type 0 where
  pub id : JsText
  pub card : Card
  pub archive : Archive
  pub status : Status
  pub moderator_note : Option JsText
  pub submitted_at : Option ℕ
  pub updated_at : ℕ
  pub owner_key_id : Option ℕ

-- One line of the moderator's checks: `{ level, label, note }`.
pub data Level : Type 0 where
  ok warning error : Level

pub record CheckItem : Type 0 where
  pub level : Level
  pub label : JsText
  pub note : JsText

pub record Checks : Type 0 where
  pub is_ok : Bool
  pub items : List CheckItem

-- A row of `scenario_versions`; `test_run` is the JSON text of the report.
pub record Version : Type 0 where
  pub id : ℕ
  pub scenario_id : JsText
  pub sha256 : JsText
  pub bytes : ℕ
  pub manifest_id : Option JsText
  pub manifest_version : Option JsText
  pub engine_version : Option JsText
  pub uploaded_by_key_id : Option ℕ
  pub uploaded_at : ℕ
  pub state : VersionState
  pub checks : Option Checks
  pub graded : Bool
  pub test_run : Option JsText

pub record Key : Type 0 where
  pub id : ℕ
  pub label : JsText
  pub role : Role
  pub token_hash : JsText
  pub last_used_at : Option ℕ
  pub revoked_at : Option ℕ

pub record Category : Type 0 where
  pub slug : JsText
  pub label : JsText
  pub icon : JsText
  pub sort_order : ℕ
  pub is_visible : Bool

-- A member of an event's `details` object.
pub data Detail : Type 0 where
  null : Detail
  text : JsText → Detail
  number : ℕ → Detail
  flag : Bool → Detail
  texts : List JsText → Detail

pub record Event : Type 0 where
  pub scenario_id : Option JsText
  pub actor_key_id : Option ℕ
  pub actor_label : JsText
  pub action : JsText
  pub details : List (JsText × Detail)

-- `next_version` and `next_key` are the sequences of the two SERIAL columns. `events` is newest first.
pub record Db : Type 0 where
  pub scenarios : List Scenario
  pub versions : List Version
  pub keys : List Key
  pub categories : List Category
  pub events : List Event
  pub next_version : ℕ
  pub next_key : ℕ
  pub now : ℕ
