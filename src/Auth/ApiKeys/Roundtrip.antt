-- ===== src/Auth/ApiKeys/Roundtrip.antt =====
-- A key that was created is the key that its raw value opens.
use pyronites.Base.{
  ℕ, ◌≡◌, true, false, ◌||◌, ◌∙◌, some, List, [], ◌∷◌, ◌++◌, Text, text_eq, text_eq_refl,
  text_eq_sound, member, join, split-join, Without, all, All, any, any-false, first,
  first-append_new, arith, refl, ap, Bool-cases, inl, inr, strip,
}
use pyronites.Db.{ok, healthy, execute}
use pyronites.Auth.ApiKeys.{
  KeyRow, ApiKey, comma, allowed_scopes, read_scope, write_scope, admin_scope, scopes_of, accepts,
  stored_plane, has_hash, new_row, new_key, insert_key, create_api_key, validate_api_key, is_empty,
  to_key, shown_plane, api_key_prefix,
}

-- an allowed scope holds no comma
scope-Without : (s : Text) → member s allowed_scopes ≡ true → Without comma s
unfolding member
scope-Without s h = elim (Bool-cases (text_eq s read_scope)) [
  | inl r ↦ rw (text_eq_sound s read_scope r) (unfold all in refl)
  | inr nr ↦ elim (Bool-cases (text_eq s write_scope)) [
    | inl w ↦ rw (text_eq_sound s write_scope w) (unfold all in refl)
    | inr nw ↦ rw (text_eq_sound s admin_scope (ground arith)) (unfold all in refl)
  ]
]

scopes-Without :
    (ss : List Text) → all (λ s. member s allowed_scopes) ss ≡ true → All (Without comma) ss
unfolding all
scopes-Without [] h = tt
scopes-Without (s ∷ ss) h = (scope-Without s (ground arith), scopes-Without ss (ground arith))

scope_not_empty : (s : Text) → member s allowed_scopes ≡ true → is_empty s ≡ false
unfolding member text_eq
scope_not_empty [] h = ground arith
scope_not_empty (c ∷ s) h = refl

-- what is stored for the scopes is read back
scopes_of-join :
    (ss : List Text)
    → is_empty ss ≡ false
    → all (λ s. member s allowed_scopes) ss ≡ true
    → scopes_of (join (comma ∷ []) ss) ≡ ss
unfolding scopes_of join all
scopes_of-join [] h a = ground arith
scopes_of-join ([] ∷ ss) h a = absurd (ground (arith, scope_not_empty []))
scopes_of-join ((c ∷ s) ∷ []) h a = split-join comma (c ∷ s) [] (scopes-Without ((c ∷ s) ∷ []) a)
scopes_of-join ((c ∷ s) ∷ t ∷ ts) h a =
    split-join comma (c ∷ s) (t ∷ ts) (scopes-Without ((c ∷ s) ∷ t ∷ ts) a)

accepts_scopes :
    (name project_id : Text) (scopes : List Text)
    → accepts name project_id scopes ≡ true
    → (is_empty scopes ≡ false) × (all (λ s. member s allowed_scopes) scopes ≡ true)
unfolding accepts
accepts_scopes name project_id scopes h = ground arith

insert_key_found :
    (k : KeyRow) (t : List KeyRow)
    → (insert_key k t).0 ≡ ok tt
    → first (has_hash k.key_hash) (insert_key k t).1 ≡ some k
unfolding insert_key
insert_key_found k t h =
    elim (Bool-cases (any (λ r. text_eq r.id k.id || text_eq r.key_hash k.key_hash) t)) [
      | inl old ↦ absurd (ground arith)
      | inr new ↦ rw new (
          first-append_new (has_hash k.key_hash) t k
            (any-false (has_hash k.key_hash)
              (λ r. text_eq r.id k.id || text_eq r.key_hash k.key_hash) t (λ r e. ground arith) new)
            (text_eq_refl k.key_hash))
    ]

shown-stored : (plane : Text) → shown_plane (stored_plane plane) ≡ stored_plane plane
unfolding stored_plane text_eq
shown-stored [] = refl
shown-stored (c ∷ s) = ground arith

module _ (sha256 : Text → Text) where
  module _ (id token : Text) (now : ℕ) (project_id name : Text) (scopes : List Text) (plane : Text)
      (t : List KeyRow) where
    abbrev row : KeyRow
    row =
        new_row sha256 id (api_key_prefix ++ token) now (strip project_id) (strip name) scopes plane

    abbrev key : ApiKey
    key =
        new_key sha256 id (api_key_prefix ++ token) now (strip project_id) (strip name) scopes plane

    created :
        (raw : Text) (k : ApiKey)
        → (create_api_key sha256 id token now project_id name scopes plane (healthy t)).0
          ≡ ok (raw, k)
        → (accepts (strip name) (strip project_id) scopes ≡ true)
          × (raw ≡ api_key_prefix ++ token)
          × (k ≡ key)
          × ((insert_key row t).0 ≡ ok tt)
          × ((create_api_key sha256 id token now project_id name scopes plane (healthy t)).1
              ≡ healthy (insert_key row t).1)
    unfolding create_api_key execute
    created raw k h = ground arith

    read_back : accepts (strip name) (strip project_id) scopes ≡ true → to_key false row ≡ key
    read_back h =
        let (full, known) = accepts_scopes (strip name) (strip project_id) scopes h in
        ground (arith, scopes_of-join scopes full known, shown-stored plane)

    opened :
        (later : ℕ) (raw : Text) (rows : List KeyRow)
        → first (has_hash (sha256 raw)) rows ≡ some row
        → (validate_api_key sha256 later raw (healthy rows)).0 ≡ ok (some (to_key false row))
    unfolding validate_api_key execute
    opened later raw rows h = rw h

    -- On a database that does not fail, the raw key that `create_api_key` returns is accepted at any
    -- later time, and what is read back from the table is the key that was returned: its name, its
    -- project, its scopes in their order, and its plane.
    pub validate_api_key-create :
        (later : ℕ) (raw : Text) (k : ApiKey)
        → (create_api_key sha256 id token now project_id name scopes plane (healthy t)).0
          ≡ ok (raw, k)
        → (validate_api_key sha256 later raw
            (create_api_key sha256 id token now project_id name scopes plane (healthy t)).1).0
          ≡ ok (some k)
    validate_api_key-create later raw k h =
        let (good, full, same, stored, after) = created raw k h in
        rw (after, full, same)
          (opened later (api_key_prefix ++ token) _ (insert_key_found row t stored)
            ∙ ap (λ x. ok (some x)) (read_back good))
