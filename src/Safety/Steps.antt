-- ===== src/Safety/Steps.antt =====
-- Sequences of the requests that Step names, and what they can never lead to. A moderator's PUT
-- /api/catalog/:id that gives scenarioUrl and POST /api/scenarios/from-archive are not among them.
use virtual_lab.Prelude.{
  ℕ, ◌+◌, Bool, true, Option, some, none, List, [], ◌∷◌, ◌≡◌, ◌⊎◌, inl, inr, arith, sym, find,
  Bool-cases, Option-cases, subst,
}
use virtual_lab.Prelude.Search.{find_of_any}
use virtual_lab.JsText.{JsText, utf16}
use virtual_lab.HttpError.{Failure}
use virtual_lab.Db.Rows.{
  Db, Scenario, Version, current, published, Checks, Event, author, moderator,
}
use virtual_lab.Db.Tx.{ok, throw, in_transaction}
use virtual_lab.Db.Find.{find_scenario, is_at, add_event}
use virtual_lab.Db.Laws.{Result-cases}
use virtual_lab.Auth.{Principal, can_edit_scenario, require_role}
use virtual_lab.Audit.{event, record_event}
use virtual_lab.Storage.{Stored}
use virtual_lab.Workflow.{Action, RawNote, has_current, no_scenario}
use virtual_lab.Workflow.Permitted.{ok_of_Permitted}
use virtual_lab.Versions.{Manifest, Installed, install_upload, key_exists, archive_of}
use virtual_lab.Versions.Invariant.{delete_version-IsSound}
use virtual_lab.Versions.Uploaded.{install_upload-IsSound}
use virtual_lab.Serving.{IsServed-of_IsKept, upload-IsKept, delete_version-IsKept}
use virtual_lab.Routes.Moves.{answers}
use virtual_lab.Routes.Workflow.{post_action}
use virtual_lab.Routes.Versions.{Decision, decide, delete, lock_scenario, not_yours}
use virtual_lab.Routes.Decide.{decided}
use virtual_lab.Routes.Decided.{decide-cases, decided-IsSound, decided-IsKept, IsSound-add_event}
use virtual_lab.Routes.Delete.{delete-cases}
use virtual_lab.Routes.Archives.{upload_work, upload_details}
use virtual_lab.Routes.Bulk.{BulkAction, Raw, RawIds, act, run_all, request, distinct, post_bulk}
use virtual_lab.Routes.Bulk.Lines.{one-cases}
use virtual_lab.Routes.Catalog.{delete_catalog}
use virtual_lab.Routes.Catalog.Update.{put_catalog}
use virtual_lab.Json.{Json, member}
use virtual_lab.Routes.Categories.Filed.{Request, handle, handle-Leaves}
use virtual_lab.Storage.Collect.{Object}
use virtual_lab.Routes.Previews.{Received, post_preview, delete_preview}
use virtual_lab.Safety.Covers.{post_preview-IsSafe, delete_preview-IsSafe}
use virtual_lab.Routes.Catalog.Create.{post_catalog}
use virtual_lab.Safety.Creation.{NoStrays, creation-IsSafe}
use virtual_lab.Safety.Updates.{put-IsSafe}
use virtual_lab.Safety.{IsSafe}
use virtual_lab.Safety.Categories.{Leaves-IsSafe, author_put-IsSafe, removal-IsSafe}
use virtual_lab.Safety.Acts.{apply_transition-IsSafe, act-IsSafe}

-- One request, by anyone: a status route, a decision, a deletion, an upload by a key that exists, a
-- bulk request, a change of the list of categories, the deletion of a scenario, an author's change of
-- one or anyone's that gives no scenarioUrl, a creation (where no scenario that is missing has a
-- version, as the foreign key has it), a cover that is set or removed; or time that passes.
pub data Step (db : Db) : Db → Type 0 where
  move :
      (p : Principal) (id : JsText) (a : Action) (raw : RawNote)
      → Step db (post_action p id a raw db).1
  decision : (p : Principal) (id raw : JsText) (dec : Decision) → Step db (decide p id raw dec db).1
  deletion : (p : Principal) (id raw : JsText) → Step db (delete p id raw db).1
  upload :
      (p : Principal) (id : JsText) (stored : Stored) (manifest : Option Manifest)
      (checks : Option Checks)
      → key_exists p.key_id db.keys ≡ true
      → Step db (in_transaction (upload_work p id stored manifest checks) db).1
  bulk :
      (p : Principal) (ids : RawIds) (action category : Raw)
      → Step db (post_bulk p ids action category db).1
  category_change :
      (slug_before : JsText → JsText → Bool) (p : Principal) (r : Request)
      → Step db (handle slug_before p r db)
  removal : (p : Principal) (id : JsText) → Step db (delete_catalog p id db).1
  author_put :
      (driver_text : Json → JsText) (p : Principal) (id : JsText) (body : Json)
      → p.role ≡ author
      → Step db (put_catalog driver_text p id body db).1
  put :
      (driver_text : Json → JsText) (p : Principal) (id : JsText) (body : Json)
      → member (utf16 "scenarioUrl") (some body) ≡ none
      → Step db (put_catalog driver_text p id body db).1
  creation :
      (driver_text : Json → JsText) (p : Principal) (body : Json)
      → NoStrays db
      → Step db (post_catalog driver_text p body db).1
  cover :
      (aspect_is_off : ℕ → ℕ → Bool) (hash_of : List ℕ → JsText) (p : Principal) (id : JsText)
      (received : Received) (time : ℕ) (objects : List Object)
      → Step db
          (post_preview aspect_is_off hash_of p id received time
            (record { db = db; objects = objects })).1.db
  uncover : (p : Principal) (id : JsText) → Step db (delete_preview p id db).1
  wait : (n : ℕ) → Step db (record db { now = db.now + n })

-- Requests one after another; the row lock of each transaction orders them.
pub data Reach (start : Db) : Db → Type 0 where
  here : Reach start start
  next : {db db' : Db} → Reach start db → Step db db' → Reach start db'

IsSafe-add_event : (db : Db) (e : Event) → IsSafe db → IsSafe (add_event e db)
IsSafe-add_event db e safe = record {
  sound = IsSound-add_event db e safe.sound;
  served = safe.served;
}

module _ (db : Db) (safe : IsSafe db) where
  move-IsSafe :
      (p : Principal) (id : JsText) (a : Action) (raw : RawNote)
      → IsSafe (post_action p id a raw db).1
  move-IsSafe p id a raw = elim (answers p id a raw db) [
    | inl (given, c, e) ↦
        subst (λ r. IsSafe r.1) (sym e)
          (apply_transition-IsSafe p id a given db safe _ _ (ok_of_Permitted p id a given db c))
    | inr (d, e, _) ↦ subst (λ r. IsSafe r.1) (sym e) safe
  ]

  decision-IsSafe :
      (p : Principal) (id raw : JsText) (dec : Decision) → IsSafe (decide p id raw dec db).1
  decision-IsSafe p id raw dec = elim (decide-cases p id raw dec db safe.sound) [
    | inr (d, e, _) ↦ subst (λ r. IsSafe r.1) (sym e) safe
    | inl (n, _, h, e) ↦
        subst (λ r. IsSafe r.1) (sym e)
          (IsSafe-add_event (decided dec id n.row db) _ (record {
            sound = decided-IsSound db safe.sound id n.row n.found dec h;
            served =
                IsServed-of_IsKept db (decided dec id n.row db)
                  (decided-IsKept db safe.sound id n.row n.found dec h) safe.served;
          }))
  ]

  deletion-IsSafe : (p : Principal) (id raw : JsText) → IsSafe (delete p id raw db).1
  deletion-IsSafe p id raw = elim (delete-cases p id raw db) [
    | inr (d, e, _) ↦ subst (λ r. IsSafe r.1) (sym e) safe
    | inl (n, h, e) ↦
        subst (λ r. IsSafe r.1) (sym e)
          (IsSafe-add_event _ _ (record {
            sound = delete_version-IsSound db safe.sound id n.row.id n.row n.found h.not_live;
            served =
                IsServed-of_IsKept db _
                  (delete_version-IsKept db safe.sound id n.row n.found h.not_live) safe.served;
          }))
  ]

  -- The upload's transaction, by the outcome of `installUpload`.
  upload-cases :
      (p : Principal) (id : JsText) (stored : Stored) (manifest : Option Manifest)
      (checks : Option Checks)
      → ((s : Scenario) × (m : Installed) × (db' : Db) × (find_scenario id db.scenarios ≡ some s)
          × (install_upload id s.status p stored manifest checks db ≡ ok (m, db'))
          × (upload_work p id stored manifest checks db
              ≡ ok (
                m,
                add_event
                    (event p (utf16 "scenario.archive") (some id) (upload_details stored m))
                    db',
              )))
        ⊎ ((e : Failure) × (upload_work p id stored manifest checks db ≡ throw e))
  unfolding upload_work lock_scenario record_event
  upload-cases p id stored manifest checks = elim (Option-cases (find_scenario id db.scenarios)) [
    | inl missing ↦ inr (no_scenario, ground arith)
    | inr (s, found) ↦ elim (Bool-cases (can_edit_scenario p s.owner_key_id)) [
      | inr stranger ↦ inr (not_yours, ground arith)
      | inl editor ↦ elim (Result-cases (install_upload id s.status p stored manifest checks db)) [
        | inl ((m, db'), e) ↦ inl (s, m, db', found, e, ground arith)
        | inr (e, h) ↦ inr (e, ground arith)
      ]
    ]
  ]

  upload-IsSafe :
      (p : Principal) (id : JsText) (stored : Stored) (manifest : Option Manifest)
      (checks : Option Checks)
      → key_exists p.key_id db.keys ≡ true
      → IsSafe (in_transaction (upload_work p id stored manifest checks) db).1
  unfolding in_transaction
  upload-IsSafe p id stored manifest checks key = elim (upload-cases p id stored manifest checks) [
    | inr (e, h) ↦ subst IsSafe {x = db} (ground arith) safe
    | inl (s, m, db', found, i, h) ↦
        subst IsSafe
          {x = add_event (event p (utf16 "scenario.archive") (some id) (upload_details stored m))
            db'}
          (ground arith)
          (IsSafe-add_event db' _ (record {
            sound =
                install_upload-IsSound id s.status p stored manifest checks db safe.sound s found
                  key m db' i;
            served =
                IsServed-of_IsKept db db'
                  (upload-IsKept db safe.sound id s.status p stored manifest checks s m db' found
                    key i)
                  safe.served;
          }))
  ]

run_all-IsSafe :
    (a : BulkAction) (p : Principal) (ids : List JsText) (db : Db)
    → IsSafe db
    → IsSafe (run_all a p ids db).1
unfolding run_all
run_all-IsSafe a p [] db safe = safe
run_all-IsSafe a p (id ∷ ids) db safe =
    run_all-IsSafe a p ids (in_transaction (act a p id) db).1 (elim (one-cases a p id db) [
      | inl (db', h, e) ↦ subst (λ r. IsSafe r.1) (sym e) (act-IsSafe a p id db db' safe h)
      | inr (_, e) ↦ subst (λ r. IsSafe r.1) (sym e) safe
    ])

bulk-IsSafe :
    (p : Principal) (ids : RawIds) (action category : Raw) (db : Db)
    → IsSafe db
    → IsSafe (post_bulk p ids action category db).1
unfolding post_bulk
bulk-IsSafe p ids action category db safe = elim (Option-cases (require_role moderator (some p))) [
  | inr (e, h) ↦ subst IsSafe {x = db} (ground arith) safe
  | inl passed ↦ elim (Result-cases (request ids action category)) [
    | inr (e, h) ↦ subst IsSafe {x = db} (ground arith) safe
    | inl ((names, a), h) ↦
        subst IsSafe {x = (run_all a p (distinct names) db).1} (ground arith)
          (run_all-IsSafe a p (distinct names) db safe)
  ]
]

step-IsSafe : {db db' : Db} → Step db db' → IsSafe db → IsSafe db'
step-IsSafe {db} (move p id a raw) safe = move-IsSafe db safe p id a raw
step-IsSafe {db} (decision p id raw dec) safe = decision-IsSafe db safe p id raw dec
step-IsSafe {db} (deletion p id raw) safe = deletion-IsSafe db safe p id raw
step-IsSafe {db} (upload p id stored manifest checks key) safe =
    upload-IsSafe db safe p id stored manifest checks key
step-IsSafe {db} (bulk p ids action category) safe = bulk-IsSafe p ids action category db safe
step-IsSafe {db} (category_change slug_before p r) safe =
    Leaves-IsSafe db (handle slug_before p r db) (handle-Leaves slug_before p db r) safe
step-IsSafe {db} (removal p id) safe = removal-IsSafe p id db safe
step-IsSafe {db} (author_put driver_text p id body by_author) safe =
    author_put-IsSafe driver_text p id body db by_author safe
step-IsSafe {db} (put driver_text p id body kept) safe =
    put-IsSafe driver_text p id body kept db safe
step-IsSafe {db} (creation driver_text p body strays) safe =
    creation-IsSafe driver_text p body db strays safe
step-IsSafe {db} (cover aspect_is_off hash_of p id received time objects) safe =
    post_preview-IsSafe aspect_is_off hash_of p id time (record { db = db; objects = objects }) safe
      received
step-IsSafe {db} (uncover p id) safe = delete_preview-IsSafe p id db safe
step-IsSafe {db} (wait n) safe = record {
  sound = record {
    one_current = safe.sound.one_current;
    one_pending = safe.sound.one_pending;
    one_id = safe.sound.one_id;
    fresh = safe.sound.fresh;
    capped = safe.sound.capped;
    mirrored = safe.sound.mirrored;
  };
  served = safe.served;
}

-- From tables where the history is sound and every published scenario has a current archive, whatever
-- sequence of the requests that Step names leads to tables where both still hold. A moderator's PUT
-- /api/catalog/:id that gives scenarioUrl and from-archive are not such requests.
pub Reach-IsSafe : (db db' : Db) → IsSafe db → Reach db db' → IsSafe db'
Reach-IsSafe db db' safe here = safe
Reach-IsSafe db db' safe (next {db = middle} path step) =
    step-IsSafe step (Reach-IsSafe db middle safe path)

-- After any sequence of the requests that Step names, from tables where IsSafe holds, the catalog row of
-- a published scenario shows the archive of its current version, which exists.
pub published_shows_current :
    (db db' : Db) (id : JsText) (s : Scenario)
    → IsSafe db
    → Reach db db'
    → find_scenario id db'.scenarios ≡ some s
    → s.status ≡ published
    → (v : Version) × (find (is_at id current) db'.versions ≡ some v) × (s.archive ≡ archive_of v)
unfolding has_current
published_shows_current db db' id s safe path found status =
    let after = Reach-IsSafe db db' safe path in
    let (v, e) = find_of_any (is_at id current) db'.versions (after.served id s found status) in
    (v, e, after.sound.mirrored id s v found e)
