-- ===== src/Tests/Data.antt =====
-- The catalog: scenario "a" is published, with a current, a pending and an archived version; scenario
-- "b" is a draft without one. Key 7 is an author's, who owns both; key 8 a moderator's.
use virtual_lab.Prelude.{ℕ, true, false, some, none, [], ◌∷◌, ◌≡◌, refl, arith, find, count_if}
use virtual_lab.JsText.{JsText, text_eq}
use virtual_lab.JsText.Laws.{text_eq_iff}
use virtual_lab.Db.Rows.{
  Db, Scenario, Card, Archive, Version, VersionState, Key, current, pending, archived, author,
  moderator, draft, published,
}
use virtual_lab.Db.Find.{find_scenario}
use virtual_lab.Auth.{Principal}
use virtual_lab.Storage.{Stored}
use virtual_lab.Workflow.{has_current}
use virtual_lab.Versions.{archive_of}
use virtual_lab.Versions.Invariant.{IsSound}
use virtual_lab.Safety.{IsSafe}

abbrev pub a : JsText
a = b'a' ∷ []

abbrev pub b : JsText
b = b'b' ∷ []

abbrev pub card : Card
card = record {
  title = a;
  description = a;
  full_description = a;
  category = a;
  category_label = a;
  image_url = [];
  manifest_url = none;
  version = none;
  author = none;
  features = [];
}

abbrev pub version_at : ℕ → ℕ → VersionState → Version
version_at id hash state = record {
  id = id;
  scenario_id = a;
  sha256 = hash ∷ [];
  bytes = 10;
  manifest_id = none;
  manifest_version = none;
  engine_version = none;
  uploaded_by_key_id = some 7;
  uploaded_at = id;
  state = state;
  checks = none;
  graded = false;
  test_run = none;
}

abbrev pub version_1 : Version
version_1 = version_at 1 b'1' archived

abbrev pub version_2 : Version
version_2 = version_at 2 b'2' current

abbrev pub version_3 : Version
version_3 = version_at 3 b'3' pending

abbrev pub scenario_a : Scenario
scenario_a = record {
  id = a;
  card = card;
  archive = archive_of version_2;
  status = published;
  moderator_note = none;
  submitted_at = none;
  updated_at = 0;
  owner_key_id = some 7;
}

abbrev pub no_archive_yet : Archive
no_archive_yet = record {
  scenario_url = [];
  sha256 = none;
  bytes = none;
  manifest_id = none;
  manifest_version = none;
  manifest_engine_version = none;
  graded = false;
  is_local = false;
}

abbrev pub scenario_b : Scenario
scenario_b = record {
  id = b;
  card = card;
  archive = no_archive_yet;
  status = draft;
  moderator_note = none;
  submitted_at = none;
  updated_at = 0;
  owner_key_id = some 7;
}

abbrev pub author_key : Key
author_key = record {
  id = 7;
  label = a;
  role = author;
  token_hash = b'x' ∷ [];
  last_used_at = none;
  revoked_at = none;
}

abbrev pub moderator_key : Key
moderator_key = record {
  id = 8;
  label = b;
  role = moderator;
  token_hash = b'y' ∷ [];
  last_used_at = none;
  revoked_at = none;
}

abbrev pub db : Db
db = record {
  scenarios = scenario_a ∷ scenario_b ∷ [];
  versions = version_3 ∷ version_2 ∷ version_1 ∷ [];
  keys = author_key ∷ moderator_key ∷ [];
  categories = record { slug = b; label = b; icon = []; sort_order = 0; is_visible = true } ∷ [];
  events = [];
  next_version = 4;
  next_key = 9;
  now = 100;
}

abbrev pub an_author : Principal
an_author = record { role = author; key_id = some 7; label = a }

abbrev pub a_moderator : Principal
a_moderator = record { role = moderator; key_id = some 8; label = b }

abbrev pub stored : Stored
stored = record { sha256 = b'9' ∷ []; bytes = 12; url = []; deduplicated = false }

pub db-IsSound : IsSound db
unfolding count_if find find_scenario
db-IsSound = record {
  one_current = λ id. ground arith;
  one_pending = λ id. ground arith;
  one_id = λ k. ground arith;
  fresh = (omega arith, (omega arith, (omega arith, tt)));
  capped = λ id. ground arith;
  mirrored = λ id s v fs fv. ground (arith, text_eq_iff a id, text_eq_iff b id);
}

pub db-IsSafe : IsSafe db
unfolding find find_scenario has_current text_eq
db-IsSafe = record {
  sound = db-IsSound;
  served = λ id s fs st. ground (arith, text_eq_iff a id, text_eq_iff b id);
}

pub found_a : find_scenario a db.scenarios ≡ some scenario_a
unfolding find_scenario find text_eq
found_a = refl

pub found_b : find_scenario b db.scenarios ≡ some scenario_b
unfolding find_scenario find text_eq
found_b = refl
