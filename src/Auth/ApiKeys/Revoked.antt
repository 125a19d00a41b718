-- ===== src/Auth/ApiKeys/Revoked.antt =====
-- Revocation, and what an accepted key means.
use pyronites.Base.{
  ℕ, ◌≡◌, ◌≢◌, true, false, Option, some, List, [], ◌∷◌, Text, text_eq, text_eq_iff, update, All,
  first, first-All, arith, Bool-cases, inl, inr,
}
use pyronites.Db.{ok, Exc, Conn, execute}
use pyronites.Auth.ApiKeys.{KeyRow, ApiKey, has_hash, to_key, revoke_api_key, validate_api_key}

abbrev Dead : Text → KeyRow → Type 0
Dead id r = text_eq r.id id ≡ true → r.is_revoked ≡ true

update-Dead :
    (id : Text) (t : List KeyRow)
    → All (Dead id) (update (λ r. text_eq r.id id) (λ r. record r { is_revoked = true }) t)
unfolding update
update-Dead id [] = tt
update-Dead id (r ∷ t) = elim (Bool-cases (text_eq r.id id)) [
  | inl own ↦ ((λ e. ground arith), update-Dead id t)
  | inr other ↦ ((λ e. absurd (ground arith)), update-Dead id t)
]

module _ (sha256 : Text → Text) where
  -- Whichever statements fail, a raw key that is accepted has its hash in the table, in a row that
  -- is not revoked, and the key that is returned is read from that row.
  pub validate_api_key_sound :
      (now : ℕ) (raw : Text) (w : Conn (List KeyRow)) (k : ApiKey)
      → (validate_api_key sha256 now raw w).0 ≡ ok (some k)
      → (r : KeyRow) × (first (has_hash (sha256 raw)) w.tables ≡ some r)
        × (r.is_revoked ≡ false)
        × (k ≡ to_key false r)
  unfolding validate_api_key execute
  validate_api_key_sound now raw w k h = ground arith

  revoked_rows :
      (id : Text) (w : Conn (List KeyRow))
      → (revoke_api_key id w).0 ≡ ok tt
      → (revoke_api_key id w).1.tables
        ≡ update (λ r. text_eq r.id id) (λ r. record r { is_revoked = true }) w.tables
  unfolding revoke_api_key execute
  revoked_rows id w h = ground arith

  revoked-All :
      (id : Text) (w : Conn (List KeyRow))
      → (revoke_api_key id w).0 ≡ ok tt
      → All (Dead id) (revoke_api_key id w).1.tables
  revoked-All id w h = rw (revoked_rows id w h) (update-Dead id w.tables)

  -- Once a key was revoked, no raw key opens it, at any time and whatever statements fail later.
  validate_api_key-revoke :
      (now : ℕ) (raw id : Text) (w : Conn (List KeyRow)) (faults : List (Option Exc)) (k : ApiKey)
      → (revoke_api_key id w).0 ≡ ok tt
      → (validate_api_key sha256 now raw
          (record { tables = (revoke_api_key id w).1.tables; faults = faults })).0
        ≡ ok (some k)
      → k.id ≢ id
  validate_api_key-revoke now raw id w faults k h v same =
      let (r, found, alive, shape) = validate_api_key_sound now raw _ k v in
      let dead = first-All (Dead id) _ _ r (revoked-All id w h) found in
      ground (arith, text_eq_iff r.id id)
