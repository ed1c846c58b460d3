-- ===== src/Routes/Intake/Clean.antt =====
-- What an upload leaves, whatever happens to it.
use virtual_lab.Prelude.{
  ℕ, false, Option, none, some, List, ◌≡◌, ◌⊎◌, inl, inr, refl, subst, arith, Bool-cases,
  Option-cases, ◌∙◌,
}
use virtual_lab.JsText.{JsText, utf16}
use virtual_lab.Db.Rows.{status_eq, review}
use virtual_lab.Db.Tx.{ok, in_transaction}
use virtual_lab.Db.Find.{find_scenario}
use virtual_lab.Db.Laws.{Result-cases}
use virtual_lab.Auth.{Principal, can_edit_scenario}
use virtual_lab.Json.{Json, member, string_of}
use virtual_lab.ArchiveValidation.{Decoding, Entry, Stream, Validated, validate_scenario_archive}
use virtual_lab.Storage.Commit.{commit_archive}
use virtual_lab.Routes.{Response, sent}
use virtual_lab.Routes.Archives.{upload_work}
use virtual_lab.ArchiveChecks.{checks_from_validation}
use virtual_lab.Routes.Intake.{
  Site, Uploaded, commit, finish, install, store_and_install, ingest, archive_route, manifest_of,
}

-- `consumed` is set only where the temp file is gone.
abbrev Tracks : Site → Type 0
Tracks site = (site.consumed ≡ false) ⊎ (site.temp ≡ none)

finish_temp : (site : Site) → Tracks site → (finish site).temp ≡ none
unfolding finish
finish_temp site (inl kept) = ground arith
finish_temp site (inr gone) = elim (Bool-cases site.consumed) [
  | inl taken ↦ ground arith
  | inr kept ↦ ground arith
]

finish_same : (site : Site) → ((finish site).objects ≡ site.objects) × ((finish site).db ≡ site.db)
unfolding finish
finish_same site = elim (Bool-cases site.consumed) [
  | inl taken ↦ (ground arith, ground arith)
  | inr kept ↦ (ground arith, ground arith)
]

module _ (directory_of : List ℕ → Option (ℕ × List Entry)) (stream_of : List ℕ → Entry → Stream)
    (parse : Decoding → List ℕ → Option Json) (hash_of : List ℕ → JsText)
    (max_entry_bytes max_entries : ℕ) (p : Principal) (id : JsText) (time : ℕ) where
  -- The archive passed the validator.
  abbrev pub Passed : List ℕ → Validated → Type 0
  Passed bytes v =
      validate_scenario_archive directory_of stream_of parse bytes (some id) max_entry_bytes
        max_entries
      ≡ ok v

  -- The store is as it was, or has the object of an archive that passed.
  abbrev pub Stores : List ℕ → Site → Site → Type 0
  Stores bytes site site' =
      (site'.objects ≡ site.objects)
      ⊎ ((v : Validated) × Passed bytes v
          × (site'.objects ≡ (commit_archive hash_of bytes time site.objects).1))

  -- The tables are as they were, or as the transaction of an archive that passed left them, and the
  -- answer is 201.
  abbrev pub Writes : List ℕ → Response Uploaded → Site → Site → Type 0
  Writes bytes r site site' =
      (site'.db ≡ site.db)
      ⊎ ((v : Validated) × (body : Uploaded) × Passed bytes v
          × (r ≡ sent 201 body)
          × (site'.db
              ≡ (in_transaction
                  (upload_work p id body.stored (some (manifest_of v.manifest))
                    (some (checks_from_validation v body.stored.bytes)))
                  site.db).1))

  abbrev ingested : List ℕ → Site → Response Uploaded × Site
  ingested bytes site =
      ingest directory_of stream_of parse hash_of max_entry_bytes max_entries p id bytes time site

  abbrev installed : Validated → List ℕ → Site → Response Uploaded × Site
  installed v bytes site =
      store_and_install directory_of stream_of parse hash_of max_entry_bytes max_entries p id bytes
        v time site

  stored_cases :
      (bytes : List ℕ) (v : Validated) (site : Site)
      → Passed bytes v
      → site.consumed ≡ false
      → Stores bytes site (installed v bytes site).1
        × Writes bytes (installed v bytes site).0 site (installed v bytes site).1
        × Tracks (installed v bytes site).1
  unfolding store_and_install install in_transaction commit
  stored_cases bytes v site passed fresh =
      elim (Result-cases (commit_archive hash_of bytes time site.objects).0) [
        | inr (e, h) ↦ (inr (v, passed, ground arith), inl (ground arith), inl (ground arith))
        | inl (stored, h) ↦
            elim (Result-cases (
              upload_work p id stored (some (manifest_of v.manifest))
                (some (checks_from_validation v stored.bytes)) site.db)) [
                  | inr (e, k) ↦
                      (inr (v, passed, ground arith), inl (ground arith), inr (ground arith))
                  | inl ((outcome, db'), k) ↦ (
                    inr (v, passed, ground arith),
                    inr (
                      v,
                      record {
                        id = id;
                        stored = stored;
                        manifest_id = string_of (member (utf16 "id") (some v.manifest));
                        warnings = v.warnings;
                        version = outcome.version;
                      },
                      passed,
                      ground arith,
                      ground arith,
                    ),
                    inr (ground arith),
                  )
                ]
      ]

  ingest-cases :
      (bytes : List ℕ) (site : Site)
      → site.consumed ≡ false
      → Stores bytes site (ingested bytes site).1
        × Writes bytes (ingested bytes site).0 site (ingested bytes site).1
        × Tracks (ingested bytes site).1
  unfolding ingest
  ingest-cases bytes site fresh = elim (Option-cases (find_scenario id site.db.scenarios)) [
    | inl missing ↦ (inl (ground arith), inl (ground arith), inl (ground arith))
    | inr (row, found) ↦ elim (Bool-cases (can_edit_scenario p row.owner_key_id)) [
      | inr stranger ↦ (inl (ground arith), inl (ground arith), inl (ground arith))
      | inl editor ↦ elim (Bool-cases (status_eq row.status review)) [
        | inl reviewed ↦ (inl (ground arith), inl (ground arith), inl (ground arith))
        | inr ready ↦
            elim (Result-cases (
              validate_scenario_archive directory_of stream_of parse bytes (some id) max_entry_bytes
                max_entries)) [
                  | inr (e, h) ↦ (inl (ground arith), inl (ground arith), inl (ground arith))
                  | inl (v, h) ↦
                      subst
                        (λ out.
                          Stores bytes site out.1 × Writes bytes out.0 site out.1 × Tracks out.1)
                        {x = installed v bytes site} {y = ingested bytes site} (ground arith)
                        (stored_cases bytes v site h fresh)
                ]
      ]
    ]
  ]

  -- What an upload leaves.
  pub record IsTidy (bytes : List ℕ) (site : Site) (out : Response Uploaded × Site) : Type 0 where
    pub temp : out.1.temp ≡ none
    pub store : Stores bytes site out.1
    pub tables : Writes bytes out.0 site out.1

  -- However the upload of a file ends, its temp file is gone; the store changes only by the object of
  -- an archive that the validator accepted; and the tables change only by the transaction for such an
  -- archive, with its checks and its manifest's members, and then the answer is 201.
  pub archive_route-IsTidy :
      (bytes : List ℕ) (site : Site)
      → IsTidy bytes site (
          archive_route directory_of stream_of parse hash_of max_entry_bytes max_entries p id bytes
            time site)
  unfolding archive_route
  archive_route-IsTidy bytes site =
      let start = record site { temp = some bytes; consumed = false } in
      let (store, tables, tracks) = ingest-cases bytes start refl in
      let after = (ingested bytes start).1 in
      record {
        temp = finish_temp after tracks;
        store = elim store [
          | inl same ↦ inl ((finish_same after).0 ∙ same)
          | inr (v, passed, new) ↦ inr (v, passed, (finish_same after).0 ∙ new)
        ];
        tables = elim tables [
          | inl same ↦ inl ((finish_same after).1 ∙ same)
          | inr (v, body, passed, answer, new) ↦
              inr (v, body, passed, answer, (finish_same after).1 ∙ new)
        ];
      }
