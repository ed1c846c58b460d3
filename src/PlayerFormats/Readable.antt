-- ===== src/PlayerFormats/Readable.antt =====
-- When a manifest and its files are what the player reads.
use virtual_lab.Prelude.{
  true, Option, none, some, List, [], ◌∷◌, ◌≡◌, ◌↔◌, refl, arith, All, inl, inr, Bool-cases,
  Option-cases,
}
use virtual_lab.JsText.{JsText, utf16}
use virtual_lab.Json.{prints, Json, number, member, string_of}
use virtual_lab.Db.Tx.{ok}
use virtual_lab.PlayerFormats.Playable.{
  IsPlayable, document_problem_iff, format_of-readable, one_readable,
}
use virtual_lab.PlayerFormats.{
  is_scene_file, scene_file_problem, lods_problem, assets_problem, elements_of,
  streaming_manifest_problem,
}

module _ {Data : Type 0} (parse : Data → Option Json) (read_object : JsText → Option Data) where
  -- The bytes behind a LOD, where they are there, are a document that the player reads.
  abbrev pub LodReads : JsText → Json → Type 0
  LodReads path lod =
      (url : JsText) (bytes : Data)
      → string_of (member (utf16 "url") (some lod)) ≡ some url
      → read_object url ≡ some bytes
      → IsPlayable (parse bytes)

  abbrev pub AssetReads : Json → Type 0
  AssetReads asset =
      (path : JsText)
      → string_of (member (utf16 "path") (some asset)) ≡ some path
      → is_scene_file path ≡ true
      → All (LodReads path) (elements_of (member (utf16 "lods") (some asset)))

  lods_read :
      (path : JsText) (lods : List Json)
      → lods_problem parse read_object path lods ≡ none
      → All (LodReads path) lods
  unfolding lods_problem scene_file_problem
  lods_read path [] h = tt
  lods_read path (lod ∷ lods) h = (
    λ url bytes eu eb. (document_problem_iff path (parse bytes)).0 (ground arith),
    lods_read path lods (rest h),
  )
    where
      rest :
          lods_problem parse read_object path (lod ∷ lods) ≡ none
          → lods_problem parse read_object path lods ≡ none
      rest h = ground arith

  read_lods :
      (path : JsText) (lods : List Json)
      → All (LodReads path) lods
      → lods_problem parse read_object path lods ≡ none
  unfolding lods_problem scene_file_problem
  read_lods path [] h = refl
  read_lods path (lod ∷ lods) h =
      elim (Option-cases (string_of (member (utf16 "url") (some lod)))) [
        | inl e ↦ ground (arith, read_lods path lods h.1)
        | inr (url, e) ↦ elim (Option-cases (read_object url)) [
          | inl missing ↦ ground (arith, read_lods path lods h.1)
          | inr (bytes, there) ↦ ground (
            arith,
            (document_problem_iff path (parse bytes)).1 (h.0 url bytes e there),
            read_lods path lods h.1,
          )
        ]
      ]

  assets_read :
      (assets : List Json) → assets_problem parse read_object assets ≡ none → All AssetReads assets
  unfolding assets_problem
  assets_read [] h = tt
  assets_read (asset ∷ assets) h =
      elim (Option-cases (string_of (member (utf16 "path") (some asset)))) [
        | inl e ↦ (λ path ep scene. absurd (ground arith), assets_read assets (ground arith))
        | inr (file, e) ↦ elim (Bool-cases (is_scene_file file)) [
          | inr other ↦ (λ path ep scene. absurd (ground arith), assets_read assets (ground arith))
          | inl scene_file ↦
              elim (Option-cases (
                lods_problem parse read_object file
                  (elements_of (member (utf16 "lods") (some asset))))) [
                    | inr (problem, bad) ↦ absurd (ground arith)
                    | inl good ↦ (
                      λ path ep scene.
                          lods_read path (elements_of (member (utf16 "lods") (some asset)))
                            (ground arith),
                      assets_read assets (ground arith),
                    )
                  ]
        ]
      ]

  read_assets :
      (assets : List Json) → All AssetReads assets → assets_problem parse read_object assets ≡ none
  unfolding assets_problem
  read_assets [] h = refl
  read_assets (asset ∷ assets) h =
      elim (Option-cases (string_of (member (utf16 "path") (some asset)))) [
        | inl e ↦ ground (arith, read_assets assets h.1)
        | inr (path, e) ↦ elim (Bool-cases (is_scene_file path)) [
          | inr other ↦ ground (arith, read_assets assets h.1)
          | inl scene ↦ ground (
            arith,
            read_lods path (elements_of (member (utf16 "lods") (some asset))) (h.0 path e scene),
            read_assets assets h.1,
          )
        ]
      ]

  -- A streaming manifest is accepted exactly when its `id` has a text, its `schema` is the number 1 and
  -- each LOD of a scene or prefab file that it lists is, where its bytes are there, a JSON object whose
  -- `version` is absent or the number 1.
  pub streaming_manifest_problem_iff :
      (manifest : Json)
      → (streaming_manifest_problem parse read_object manifest ≡ ok none) ↔ (
          (prints (member (utf16 "id") (some manifest)) ≡ true)
          × (member (utf16 "schema") (some manifest) ≡ some (number (utf16 "1")))
          × All AssetReads (elements_of (member (utf16 "assets") (some manifest))))
  unfolding streaming_manifest_problem
  streaming_manifest_problem_iff manifest = (
    λ h. elim (Bool-cases (prints (member (utf16 "id") (some manifest)))) [
      | inr silent ↦ absurd (ground arith)
      | inl printed ↦ elim (Option-cases (member (utf16 "schema") (some manifest))) [
        | inl e ↦ absurd (ground arith)
        | inr (j, e) ↦ (
          printed,
          ground (arith, format_of-readable j),
          assets_read (elements_of (member (utf16 "assets") (some manifest))) (ground arith),
        )
      ]
    ],
    λ h. ground (
      arith,
      h.0,
      h.1,
      one_readable,
      read_assets (elements_of (member (utf16 "assets") (some manifest))) h.2,
    ),
  )
