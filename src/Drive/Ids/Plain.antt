-- ===== src/Drive/Ids/Plain.antt =====
-- Paths of one name in internal/adapter/gdrive/gdrive.go.
use syncrules.Prelude.{
  Text, text_eq, text_iff, nat_same_iff, none, some, [], ◌∷◌, Result-cases, List-cases, ok, ◌≡◌,
  ◌≢◌, refl, inl, inr, ap, sym, ◌∙◌, arith,
}
use syncrules.Prelude.Dict.{lookup, lookup-insert}
use syncrules.Paths.{slash, split_slash, join_slash}
use syncrules.Paths.Parts.{NoSlash, IsName, split_slash-join_slash}
use syncrules.Drive.{DriveService}
use syncrules.Drive.Queries.{name_query}
use syncrules.Drive.Names.{trim_first_slash}
use syncrules.Drive.Ids.{
  Cache, root_id, partial_path, parts_of_full, walk, get_file_id, make_parts,
  get_or_create_folder_id,
}

trim_first_slash-plain : (name : Text) → NoSlash name → trim_first_slash name ≡ name
unfolding trim_first_slash
trim_first_slash-plain [] h = refl
trim_first_slash-plain (c ∷ s) h = ground (arith, nat_same_iff c slash)

parts_of_full-plain : (name : Text) → NoSlash name → parts_of_full name ≡ name ∷ []
unfolding join_slash
parts_of_full-plain name h =
    ap split_slash (trim_first_slash-plain name h) ∙ split_slash-join_slash name [] (h, tt)

pub partial_path-ne : (name : Text) → IsName name → name ≢ partial_path (name ∷ [])
unfolding join_slash
partial_path-ne [] h e = h.0 refl
partial_path-ne (c ∷ s) h e = absurd (ground arith)

module _ {W : Type 0} (service : DriveService W) where
  walk-one :
      (w : W) (cache cache1 : Cache) (start name id : Text)
      → name ≢ []
      → walk service w cache start [] (name ∷ []) ≡ (cache1, ok id)
      → lookup (partial_path (name ∷ [])) cache1 ≡ some id
  unfolding walk
  walk-one w cache cache1 start name id h found =
      let key = partial_path (name ∷ []) in
      elim (Result-cases (service.list w (name_query name start) 1 [])) [
        | inr (x, e) ↦ absurd (ground (arith, text_iff name []))
        | inl (page, e) ↦ elim (List-cases page.files) [
          | inl f ↦ absurd (ground (arith, text_iff name []))
          | inr (file, rest, f) ↦
              ground
                (arith, text_iff name [], lookup-insert key key file.id cache, text_iff key key)
        ]
      ]

  -- A name that is found is cached with a slash in front.
  pub get_file_id-plain :
      (w : W) (cache cache1 : Cache) (name id : Text)
      → IsName name
      → lookup name cache ≡ none
      → get_file_id service w cache name ≡ (cache1, ok id)
      → lookup (partial_path (name ∷ [])) cache1 ≡ some id
  unfolding get_file_id
  get_file_id-plain w cache cache1 name id h absent found =
      walk-one w cache cache1 root_id name id h.0 (
        ap (walk service w cache root_id []) (sym (parts_of_full-plain name h.3))
        ∙ ground (arith, text_iff name []))

  make-one :
      (w : W) (cache : Cache) (start name id : Text)
      → name ≢ []
      → lookup (partial_path (name ∷ [])) cache ≡ some id
      → make_parts service w cache start [] (name ∷ []) ≡ (w, cache, ok id)
  unfolding make_parts
  make-one w cache start name id h cached = ground (arith, text_iff name [])

  -- Under that key the folder is taken from the cache.
  pub get_or_create-plain :
      (w : W) (cache : Cache) (name id : Text)
      → IsName name
      → lookup name cache ≡ none
      → lookup (partial_path (name ∷ [])) cache ≡ some id
      → get_or_create_folder_id service w cache name ≡ (w, cache, ok id)
  unfolding get_or_create_folder_id
  get_or_create-plain w cache name id h absent cached =
      let made =
        ap (make_parts service w cache root_id []) (parts_of_full-plain name h.3)
        ∙ make-one w cache root_id name id h.0 cached in
      ground (arith, text_iff name [])
