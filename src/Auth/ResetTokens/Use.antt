-- ===== src/Auth/ResetTokens/Use.antt =====
-- Creating a reset token and redeeming it.
use pyronites.Base.{
  ℕ, ◌+◌, ◌≤◌, ◌≡◌, ◌⊎◌, first_sound, ◌≢◌, true, not, ◌&&◌, ◌||◌, Option, none, some, List, [], ◌∷◌,
  ◌++◌, Text, text_eq, text_eq_refl, text_eq_iff, strip, first, keep, update, any, leb,
  if◌then◌else◌, arith, first-All, All, All-append, All-keep_self, All-map, first-append_new,
  any-false, Bool-cases, inl, inr, refl,
}
use pyronites.Db.{ok, Exc, Conn, healthy, execute}
use pyronites.Auth.{ResetRow, AuthDb, has_id, has_hash, insert_reset}
use pyronites.Auth.ResetTokens.{
  is_unused, create_reset_token, consume_stripped, consume_reset_token,
}

module _ (sha256 : Text → Text) where
  abbrev marked : ℕ → ResetRow → List ResetRow → List ResetRow
  marked now r = update (λ r'. text_eq r'.id r.id) (λ r'. record r' { used_at = some now })

  pub consumed :
      (now : ℕ) (raw : Text) (w : Conn AuthDb) (uid : Text)
      → (consume_stripped sha256 now raw w).0 ≡ ok (some uid)
      → (r : ResetRow) × (first (has_hash (sha256 raw)) w.tables.reset_tokens ≡ some r)
        × (is_unused r ≡ true)
        × (now ≤ r.expires_at)
        × (uid ≡ r.user_id)
        × ((consume_stripped sha256 now raw w).1.tables.reset_tokens
            ≡ marked now r w.tables.reset_tokens)
  unfolding consume_stripped execute
  consumed now [] w uid h = absurd (ground arith)
  consumed now (c ∷ s) w uid h = ground arith

  -- the row of a consumed token; only the tables of tokens changes
  pub consume_reset_token_sound :
      (now : ℕ) (raw : Text) (w : Conn AuthDb) (uid : Text)
      → (consume_reset_token sha256 now raw w).0 ≡ ok (some uid)
      → (r : ResetRow) × (first (has_hash (sha256 (strip raw))) w.tables.reset_tokens ≡ some r)
        × (is_unused r ≡ true)
        × (now ≤ r.expires_at)
        × (uid ≡ r.user_id)
  unfolding consume_reset_token
  consume_reset_token_sound now raw w uid h =
      let (r, found, unused, fresh, owner, _) = consumed now (strip raw) w uid h in
      (r, found, unused, fresh, owner)

  users-consume_stripped :
      (now : ℕ) (raw : Text) (w : Conn AuthDb)
      → (consume_stripped sha256 now raw w).1.tables.users ≡ w.tables.users
  unfolding consume_stripped execute
  users-consume_stripped now [] w = refl
  users-consume_stripped now (c ∷ s) w = ground arith

  pub users-consume_reset_token :
      (now : ℕ) (raw : Text) (w : Conn AuthDb)
      → (consume_reset_token sha256 now raw w).1.tables.users ≡ w.tables.users
  unfolding consume_reset_token
  users-consume_reset_token now raw w = users-consume_stripped now (strip raw) w

  module _ (id raw : Text) (now : ℕ) (user_id : Text) (ttl : ℕ) where
    abbrev row : ResetRow
    row = record {
      id = id;
      user_id = user_id;
      token_hash = sha256 raw;
      expires_at = now + ttl;
      used_at = none;
      created_at = now;
    }

    -- the row of a token that was just created, or one that is no unused token of its user
    abbrev Left : ResetRow → Type 0
    Left r = (not (text_eq r.user_id user_id && is_unused r) ≡ true) ⊎ (r ≡ row)

    created_tokens :
        (w : Conn AuthDb)
        → (create_reset_token sha256 id raw now user_id ttl w).0 ≡ ok raw
        → (create_reset_token sha256 id raw now user_id ttl w).1.tables.reset_tokens
          ≡ keep (λ r. not (text_eq r.user_id user_id && is_unused r)) w.tables.reset_tokens
            ++ row ∷ []
    unfolding create_reset_token execute
    created_tokens w h = ground arith

    created-Left :
        (w : Conn AuthDb)
        → (create_reset_token sha256 id raw now user_id ttl w).0 ≡ ok raw
        → All Left (create_reset_token sha256 id raw now user_id ttl w).1.tables.reset_tokens
    created-Left w h = rw (created_tokens w h) (
        All-append Left _ (row ∷ [])
          (All-map _ Left
            (keep (λ r. not (text_eq r.user_id user_id && is_unused r)) w.tables.reset_tokens)
            (λ r k. inl k)
            (All-keep_self (λ r. not (text_eq r.user_id user_id && is_unused r))
              w.tables.reset_tokens))
          (inr refl, tt))

    -- Once a token was created for a user, whatever statements fail later, a token that resets the
    -- password of that user has the hash of the new one: all older tokens are void.
    create_replaces :
        (w : Conn AuthDb) (faults : List (Option Exc)) (later : ℕ) (other : Text)
        → (create_reset_token sha256 id raw now user_id ttl w).0 ≡ ok raw
        → (consume_reset_token sha256 later other (record {
          tables = (create_reset_token sha256 id raw now user_id ttl w).1.tables;
          faults = faults;
        })).0
          ≡ ok (some user_id)
        → sha256 (strip other) ≡ sha256 raw
    unfolding consume_reset_token
    create_replaces w faults later other h k =
        let (r, found, unused, _, owner, _) = consumed later (strip other) _ user_id k in
        let left = first-All Left _ _ r (created-Left w h) found in
        let hash : has_hash (sha256 (strip other)) r ≡ true = first_sound _ _ r found in
        ground (
          arith,
          text_eq_iff r.user_id user_id,
          text_eq_iff (sha256 raw) (sha256 (strip other)),
          text_eq_iff r.token_hash (sha256 (strip other)),
        )

    insert_reset_found :
        (t : AuthDb)
        → (insert_reset row t).0 ≡ ok tt
        → first (has_hash (sha256 raw)) (insert_reset row t).1.reset_tokens ≡ some row
    unfolding insert_reset
    insert_reset_found t h =
        elim (Bool-cases (any (λ r. text_eq r.id id || has_hash (sha256 raw) r) t.reset_tokens)) [
          | inl old ↦ absurd (ground arith)
          | inr new ↦ elim (Bool-cases (any (has_id user_id) t.users)) [
            | inr orphan ↦ absurd (ground arith)
            | inl known ↦
                rw (new, known)
                  (first-append_new (has_hash (sha256 raw)) t.reset_tokens row
                    (any-false (has_hash (sha256 raw))
                      (λ r. text_eq r.id id || has_hash (sha256 raw) r) t.reset_tokens
                      (λ r e. ground arith) new)
                    (text_eq_refl (sha256 raw)))
          ]
        ]

    abbrev pruned : AuthDb → AuthDb
    pruned t = record t {
      reset_tokens = keep (λ r. not (text_eq r.user_id user_id && is_unused r)) t.reset_tokens;
    }

    -- On a database that does not fail, a token that was created (and that is not empty and has
    -- no blanks around it) resets the password of its user until it expires, and nobody's after that.
    consume-create :
        (t : AuthDb) (later : ℕ)
        → strip raw ≡ raw
        → raw ≢ []
        → (create_reset_token sha256 id raw now user_id ttl (healthy t)).0 ≡ ok raw
        → (consume_reset_token sha256 later raw
            (create_reset_token sha256 id raw now user_id ttl (healthy t)).1).0
          ≡ ok (if leb later (now + ttl) then some user_id else none)
    unfolding consume_reset_token create_reset_token execute
    consume-create t later blank full h = rw blank (ground (arith, insert_reset_found (pruned t)))
