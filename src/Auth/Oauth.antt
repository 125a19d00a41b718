-- ===== src/Auth/Oauth.antt =====
-- backend/auth/oauth.py: the state tokens of a sign-in, `create_oauth_state` and
-- `consume_oauth_state`. `sha256` is hashlib's, in hexadecimal.
pub mod Providers
pub mod Profile
pub mod Resolve
pub mod Sound
pub mod States
pub mod Links
pub mod Vouched
use pyronites.Base.{
  ℕ, ◌+◌, Bool, true, false, not, ◌&&◌, ◌||◌, Option, none, some, List, [], ◌∷◌, ◌++◌, Text,
  text_eq, strip, first, keep, update, any, ltb, if◌then◌else◌,
}
use pyronites.Db.{Result, ok, err, integrity_error, Exec, pure, execute, mark, ◌>>=◌, ◌>>◌}
use pyronites.Auth.{StateRow, AuthDb}

abbrev pub has_state : Text → StateRow → Bool
has_state h s = text_eq s.state_hash h

-- `used_at IS NULL`
abbrev pub is_unused : StateRow → Bool
is_unused s = elim s.used_at [ none ↦ true | some t ↦ false ]

-- INSERT INTO oauth_states: `id` is the primary key, `state_hash` is UNIQUE
unfoldable pub insert_state : StateRow → AuthDb → Result (Unit {0}) × AuthDb
insert_state s db =
    if any (λ r. text_eq r.id s.id || has_state s.state_hash r) db.states
    then (err integrity_error, db)
    else (ok tt, record db { states = db.states ++ s ∷ [] })

-- DELETE … WHERE expires_at < ?
unfoldable pub delete_expired : ℕ → Exec AuthDb (Unit {0})
delete_expired now =
    execute (λ db. (ok tt, record db { states = keep (λ s. not (ltb s.expires_at now)) db.states }))

unfoldable pub select_state : Text → Exec AuthDb (Option StateRow)
select_state hash = execute (λ db. (ok (first (has_state hash) db.states), db))

-- UPDATE … SET used_at = ? WHERE id = ? AND used_at IS NULL; the row count is not looked at
unfoldable pub burn : ℕ → Text → Exec AuthDb (Unit {0})
burn now id = execute (λ db. (
  ok tt,
  record db {
    states =
        update (λ s. text_eq s.id id && is_unused s) (λ s. record s { used_at = some now })
          db.states;
  },
))

-- the rest of the block, with the row that was read
unfoldable pub redeem : ℕ → Text → Option StateRow → Exec AuthDb (Option Text)
unfolding burn
redeem now provider none = pure none
redeem now provider (some s) =
    if not (is_unused s) || not (text_eq s.provider provider)
    then pure none
    else if ltb s.expires_at now
    then pure none
    else (do burn now s.id; pure (some s.redirect_uri))

module _ (sha256 : Text → Text) where
  -- create_oauth_state; `id` is the new uuid, `raw` the new token, `ttl` in ticks
  unfoldable pub create_oauth_state : Text → Text → ℕ → Text → Text → ℕ → Exec AuthDb Text
  unfolding delete_expired insert_state
  create_oauth_state id raw now provider redirect_uri ttl = do
    delete_expired now
    execute (
        insert_state (record {
          id = id;
          state_hash = sha256 raw;
          provider = provider;
          redirect_uri = redirect_uri;
          expires_at = now + ttl;
          used_at = none;
          created_at = now;
        }))
    pure raw

  -- The block runs between BEGIN and COMMIT, but its statements go through `Database.execute`,
  -- which commits each of them: a rollback has nothing to undo.
  unfoldable pub consume_stripped : ℕ → Text → Text → Exec AuthDb (Option Text)
  unfolding select_state redeem mark
  consume_stripped now provider [] = pure none
  consume_stripped now provider (c ∷ s) = do
    mark
    row ← select_state (sha256 (c ∷ s))
    result ← redeem now provider row
    mark
    pure result

  -- consume_oauth_state
  unfoldable pub consume_oauth_state : ℕ → Text → Text → Exec AuthDb (Option Text)
  unfolding consume_stripped
  consume_oauth_state now provider raw = consume_stripped now provider (strip raw)
