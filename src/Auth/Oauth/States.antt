-- ===== src/Auth/Oauth/States.antt =====
-- State tokens: one use in sequence, and two uses when two callers interleave.
use pyronites.Base.{
  ℕ, ◌+◌, ◌≤◌, ◌≡◌, ◌≢◌, true, not, ◌&&◌, ◌||◌, Option, none, some, List, [], ◌∷◌, Text, text_eq,
  text_eq_refl, strip, first, keep, update, any, ltb, leb, if◌then◌else◌, arith, refl, first-update,
  first-append_new, any-false, Bool-cases, Option-cases, inl, inr,
}
use pyronites.Db.{ok, Exc, Conn, healthy, execute}
use pyronites.Auth.{StateRow, AuthDb}
use pyronites.Auth.Oauth.{
  has_state, is_unused, insert_state, select_state, redeem, create_oauth_state, consume_stripped,
  consume_oauth_state,
}

module _ (sha256 : Text → Text) where
  abbrev burned : ℕ → StateRow → List StateRow → List StateRow
  burned now s =
      update (λ r. text_eq r.id s.id && is_unused r) (λ r. record r { used_at = some now })

  consumed :
      (now : ℕ) (provider raw : Text) (w : Conn AuthDb) (uri : Text)
      → (consume_stripped sha256 now provider raw w).0 ≡ ok (some uri)
      → (s : StateRow) × (first (has_state (sha256 raw)) w.tables.states ≡ some s)
        × (is_unused s ≡ true)
        × (text_eq s.provider provider ≡ true)
        × (now ≤ s.expires_at)
        × (uri ≡ s.redirect_uri)
        × ((consume_stripped sha256 now provider raw w).1.tables.states
            ≡ burned now s w.tables.states)
  unfolding consume_stripped execute
  consumed now provider [] w uri h = absurd (ground arith)
  consumed now provider (c ∷ t) w uri h =
      elim (Option-cases (first (has_state (sha256 (c ∷ t))) w.tables.states)) [
        | inl missing ↦ absurd (ground arith)
        | inr (s, there) ↦
            (s, there, ground arith, ground arith, ground arith, ground arith, ground arith)
      ]

  spent :
      (now now' : ℕ) (provider provider' raw : Text) (w : Conn AuthDb) (faults : List (Option Exc))
      (uri uri' : Text)
      → (consume_stripped sha256 now provider raw w).0 ≡ ok (some uri)
      → (consume_stripped sha256 now' provider' raw (record {
        tables = (consume_stripped sha256 now provider raw w).1.tables;
        faults = faults;
      })).0
        ≢ ok (some uri')
  spent now now' provider provider' raw w faults uri uri' h k =
      let (s, found, unused, _, _, _, after) = consumed now provider raw w uri h in
      let (s', found', unused', _, _, _, _) =
        consumed now' provider' raw
          (record {
            tables = (consume_stripped sha256 now provider raw w).1.tables;
            faults = faults;
          })
          uri' k in
      let again =
        first-update (has_state (sha256 raw)) (λ r. text_eq r.id s.id && is_unused r)
          (λ r. record r { used_at = some now }) w.tables.states s (λ r. refl) found in
      ground (arith, text_eq_refl s.id)

  -- A state token that was consumed is refused by the call that begins next, for any provider and
  -- whatever statements fail in it.
  pub consume_state_once :
      (now now' : ℕ) (provider provider' raw : Text) (w : Conn AuthDb) (faults : List (Option Exc))
      (uri uri' : Text)
      → (consume_oauth_state sha256 now provider raw w).0 ≡ ok (some uri)
      → (consume_oauth_state sha256 now' provider' raw (record {
        tables = (consume_oauth_state sha256 now provider raw w).1.tables;
        faults = faults;
      })).0
        ≢ ok (some uri')
  unfolding consume_oauth_state
  consume_state_once now now' provider provider' raw = spent now now' provider provider' (strip raw)

  -- Two callers on two connections, whose locks are not shared: both SELECTs run first, then both
  -- UPDATEs. Where one caller alone would be given the redirect URI, both are given it: the state
  -- is consumed twice.
  redeem_both :
      (now : ℕ) (provider raw uri : Text) (db : AuthDb)
      → (consume_oauth_state sha256 now provider raw (healthy db)).0 ≡ ok (some uri)
      → (row : Option StateRow) × (select_state (sha256 (strip raw)) (healthy db)
          ≡ (ok row, healthy db))
        × ((redeem now provider row (healthy db)).0 ≡ ok (some uri))
        × ((redeem now provider row (redeem now provider row (healthy db)).1).0 ≡ ok (some uri))
  unfolding consume_oauth_state select_state redeem execute
  redeem_both now provider raw uri db h =
      let (s, found, unused, same, fresh, own, _) =
        consumed now provider (strip raw) (healthy db) uri h in
      (some s, rw found, ground arith, ground arith)

  module _ (id raw : Text) (now : ℕ) (provider redirect_uri : Text) (ttl : ℕ) where
    abbrev row : StateRow
    row = record {
      id = id;
      state_hash = sha256 raw;
      provider = provider;
      redirect_uri = redirect_uri;
      expires_at = now + ttl;
      used_at = none;
      created_at = now;
    }

    insert_state_found :
        (db : AuthDb)
        → (insert_state row db).0 ≡ ok tt
        → first (has_state (sha256 raw)) (insert_state row db).1.states ≡ some row
    unfolding insert_state
    insert_state_found db h =
        elim (Bool-cases (any (λ r. text_eq r.id id || has_state (sha256 raw) r) db.states)) [
          | inl old ↦ absurd (ground arith)
          | inr new ↦ rw new (
              first-append_new (has_state (sha256 raw)) db.states row
                (any-false (has_state (sha256 raw))
                  (λ r. text_eq r.id id || has_state (sha256 raw) r) db.states (λ r e. ground arith)
                  new)
                (text_eq_refl (sha256 raw)))
        ]

    abbrev pruned : AuthDb → AuthDb
    pruned db = record db { states = keep (λ s. not (ltb s.expires_at now)) db.states }

    -- On a database that does not fail, a state that was created (and that is not empty and has no
    -- blanks around it) gives back its redirect URI to its own provider until it expires, and to no
    -- other provider and not after that.
    pub consume-create_state :
        (db : AuthDb) (later : ℕ) (provider' : Text)
        → strip raw ≡ raw
        → raw ≢ []
        → (create_oauth_state sha256 id raw now provider redirect_uri ttl (healthy db)).0 ≡ ok raw
        → (consume_oauth_state sha256 later provider' raw
            (create_oauth_state sha256 id raw now provider redirect_uri ttl (healthy db)).1).0
          ≡ ok (
              if text_eq provider provider' && leb later (now + ttl)
              then some redirect_uri
              else none)
    unfolding consume_oauth_state create_oauth_state execute
    consume-create_state db later provider' blank full h =
        rw blank (ground (arith, insert_state_found (pruned db)))
