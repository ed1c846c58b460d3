-- ===== src/ArchiveValidation/Accepted.antt =====
-- What an accepted archive satisfies.
use virtual_lab.Prelude.{
  ℕ, ◌≤◌, Bool, true, false, not, Option, none, some, List, [], ◌∷◌, map, ◌≡◌, ◌⊎◌, inl, inr, refl,
  arith, subst, length, All, find, Option-cases,
}
use virtual_lab.JsText.{JsText, utf16, text_eq}
use virtual_lab.Db.Tx.{Result, ok}
use virtual_lab.Json.{Json, flag, member}
use virtual_lab.PlayerFormats.Playable.{
  IsPlayable, document_problem_iff, HasMajor1, manifest_version-HasMajor1,
}
use virtual_lab.PlayerFormats.{
  document_problem, is_scene_file, scene_file_problem, manifest_version_problem,
}
use virtual_lab.ArchiveValidation.{
  manifest_name, invalid, Decoding, buffer_text, decoder_text, Entry, Stream, complete,
  read_entry_capped, manifest_field_problem, entry_path, includes, Validated, open_archive,
  read_manifest, log_manifest, check_manifest, check_entry, check_entries, warnings_of,
  validate_scenario_archive, problem_of,
}
use virtual_lab.ArchiveValidation.Entries.{read_entry_capped-le}
use virtual_lab.ArchiveValidation.Fields.{
  and_then, both_ok, refuse_ok, Reading-cases, HasFields, fields_of, problem_ok, flag_given,
}

module _ (directory_of : List ℕ → Option (ℕ × List Entry)) (stream_of : List ℕ → Entry → Stream)
    (parse : Decoding → List ℕ → Option Json) (file : List ℕ)
    (max_entry_bytes max_entries : ℕ) where
  -- A scene or prefab of the archive was read within the cap, and the player reads its document.
  abbrev pub IsReadable : Entry → Type 0
  IsReadable e =
      e.is_directory ≡ false
      → is_scene_file e.name ≡ true
      → (bytes : List ℕ) × (read_entry_capped e (stream_of file e) max_entry_bytes ≡ complete bytes)
        × (length bytes ≤ max_entry_bytes)
        × IsPlayable (parse decoder_text bytes)

  -- What an accepted archive has.
  pub record IsScenario (v : Validated) : Type 0 where
    pub count : ℕ
    pub entries : List Entry
    pub directory : directory_of file ≡ some (count, entries)
    pub few : count ≤ max_entries
    pub names : v.entries ≡ map (λ e. e.name) entries
    pub fields : HasFields (some v.manifest)
    pub manifest_entry : Entry
    pub manifest_bytes : List ℕ
    pub listed : find (λ e. text_eq e.name (utf16 "manifest.json")) entries ≡ some manifest_entry
    pub read :
        read_entry_capped manifest_entry (stream_of file manifest_entry) max_entry_bytes
        ≡ complete manifest_bytes
    pub capped : length manifest_bytes ≤ max_entry_bytes
    pub parsed : parse buffer_text manifest_bytes ≡ some v.manifest
    pub format : HasMajor1 (member (utf16 "manifestVersion") (some v.manifest))
    pub graded :
        (member (utf16 "graded") (some v.manifest) ≡ none)
        ⊎ ((b : Bool) × (member (utf16 "graded") (some v.manifest) ≡ some (flag b)))
    pub entry_point :
        includes entries (entry_path (member (utf16 "entryPoint") (some v.manifest))) ≡ true
    pub scenes : All IsReadable entries

  readable :
      (e : Entry)
      → check_entry directory_of stream_of parse file max_entry_bytes e ≡ ok tt
      → IsReadable e
  unfolding check_entry problem_of scene_file_problem
  readable e h file_entry scene =
      elim (Reading-cases (read_entry_capped e (stream_of file e) max_entry_bytes)) [
        | inr (inl big) ↦ absurd (ground arith)
        | inr (inr bad) ↦ absurd (ground arith)
        | inl (bytes, r) ↦ (
          bytes,
          r,
          read_entry_capped-le e (stream_of file e) max_entry_bytes bytes r,
          (document_problem_iff e.name (parse decoder_text bytes)).0
              (problem_ok (document_problem e.name (parse decoder_text bytes)) (ground arith)),
        )
      ]

  all_readable :
      (es : List Entry)
      → check_entries directory_of stream_of parse file max_entry_bytes es ≡ ok tt
      → All IsReadable es
  unfolding check_entries
  all_readable [] h = tt
  all_readable (e ∷ es) h =
      let (first, rest) = both_ok _ _ h in (readable e first, all_readable es rest)

  opened :
      (es : List Entry)
      → open_archive directory_of file max_entries ≡ ok es
      → (count : ℕ) × (directory_of file ≡ some (count, es)) × (count ≤ max_entries)
  unfolding open_archive
  opened es h = elim (Option-cases (directory_of file)) [
    | inl e ↦ absurd (ground arith)
    | inr ((count, es'), e) ↦ (count, ground arith, ground arith)
  ]

  record Parsed (e : Entry) (m : Json) : Type 0 where
    bytes : List ℕ
    complete : read_entry_capped e (stream_of file e) max_entry_bytes ≡ complete bytes
    capped : length bytes ≤ max_entry_bytes
    parsed : parse buffer_text bytes ≡ some m

  parsed_manifest :
      (e : Entry) (m : Json)
      → read_manifest directory_of stream_of parse file e max_entry_bytes ≡ ok m
      → Parsed e m
  unfolding read_manifest
  parsed_manifest e m h =
      elim (Reading-cases (read_entry_capped e (stream_of file e) max_entry_bytes)) [
        | inr (inl big) ↦ absurd (ground arith)
        | inr (inr bad) ↦ absurd (ground arith)
        | inl (bytes, r) ↦ elim (Option-cases (parse buffer_text bytes)) [
          | inl no_json ↦ absurd (ground arith)
          | inr (j, is_json) ↦ record {
            bytes = bytes;
            complete = r;
            capped = read_entry_capped-le e (stream_of file e) max_entry_bytes bytes r;
            parsed = ground arith;
          }
        ]
      ]

  entry_found :
      (o : Option Entry) (e : Entry)
      → (elim o as (λ _. Result Entry) [
        | none ↦ invalid (utf16 "В архіві немає manifest.json у корені")
        | some e ↦ ok e
      ])
        ≡ ok e
      → o ≡ some e
  entry_found none e h = absurd (ground arith)
  entry_found (some x) e h = ground arith

  record Checked (m : Json) (es : List Entry) : Type 0 where
    fields : HasFields (some m)
    format : HasMajor1 (member (utf16 "manifestVersion") (some m))
    graded :
        (member (utf16 "graded") (some m) ≡ none)
        ⊎ ((b : Bool) × (member (utf16 "graded") (some m) ≡ some (flag b)))
    entry_point : includes es (entry_path (member (utf16 "entryPoint") (some m))) ≡ true

  checked : (m : Json) (es : List Entry) → check_manifest m es ≡ ok tt → Checked m es
  unfolding check_manifest
  checked m es h =
      let (_, h1) = both_ok _ _ h in
      let (field, h2) = both_ok _ _ h1 in
      let (version, h3) = both_ok _ _ h2 in
      let (flagged, here) = both_ok _ _ h3 in
      record {
        fields = fields_of (some m) (problem_ok (manifest_field_problem (some m)) field);
        format = manifest_version-HasMajor1 (member (utf16 "manifestVersion") (some m)) (
            problem_ok (manifest_version_problem (member (utf16 "manifestVersion") (some m)))
              version);
        graded = flag_given (member (utf16 "graded") (some m)) (refuse_ok _ _ flagged);
        entry_point = ground (
          arith,
          refuse_ok (not (includes es (entry_path (member (utf16 "entryPoint") (some m))))) _ here,
        );
      }

  -- An archive that is accepted has at most the allowed number of entries. Its manifest is what its
  -- entry manifest.json, read within the cap on bytes, parses to; the id, version and engine version
  -- have at most 255, 50 and 100 units, the manifest version has the major number 1, `graded` is absent
  -- or a Boolean, the entry point is in the archive. Every scene or prefab file in it was read within
  -- the cap on bytes and is a JSON object whose `version` is absent or the number 1.
  pub validate_scenario_archive-IsScenario :
      (catalog_id : Option JsText) (v : Validated)
      → validate_scenario_archive directory_of stream_of parse file catalog_id max_entry_bytes
          max_entries
        ≡ ok v
      → IsScenario v
  unfolding validate_scenario_archive
  validate_scenario_archive-IsScenario catalog_id v h =
      let (es, opens, h1) = and_then (open_archive directory_of file max_entries) _ v h in
      let (count, directory, few) = opened es opens in
      let (e, listed, h2) = and_then _ _ v h1 in
      let (m, is_read, h3) =
        and_then (read_manifest directory_of stream_of parse file e max_entry_bytes) _ v h2 in
      let (_, _, h4) = and_then (log_manifest m) _ v h3 in
      let (_, manifest, h5) = and_then (check_manifest m es) _ v h4 in
      let (_, scenes, h6) =
        and_then (check_entries directory_of stream_of parse file max_entry_bytes es) _ v h5 in
      let c = checked m es manifest in
      let r = parsed_manifest e m is_read in
      subst IsScenario
        {x = record {
          manifest = m;
          entries = map (λ e. e.name) es;
          warnings = warnings_of (member (utf16 "id") (some m)) catalog_id;
        }}
        (ground arith)
        (record {
          count = count;
          entries = es;
          directory = directory;
          few = few;
          names = refl;
          fields = c.fields;
          manifest_entry = e;
          manifest_bytes = r.bytes;
          listed = entry_found (find (λ e. text_eq e.name manifest_name) es) e listed;
          read = r.complete;
          capped = r.capped;
          parsed = r.parsed;
          format = c.format;
          graded = c.graded;
          entry_point = c.entry_point;
          scenes = all_readable es scenes;
        })
