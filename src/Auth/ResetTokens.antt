-- ===== src/Auth/ResetTokens.antt =====
-- backend/auth/password_reset.py. `sha256` is hashlib's, in hexadecimal.
pub mod Use
pub mod Spent
use pyronites.Base.{
  ℕ, ◌+◌, Bool, true, false, not, ◌&&◌, Option, none, some, List, [], ◌∷◌, Text, text_eq, strip,
  first, keep, update, ltb, if◌then◌else◌,
}
use pyronites.Db.{Result, ok, err, Exec, pure, execute, ◌>>=◌, ◌>>◌}
use pyronites.Auth.{ResetRow, AuthDb, has_hash, insert_reset}

-- `used_at IS NULL`
abbrev pub is_unused : ResetRow → Bool
is_unused r = elim r.used_at [ none ↦ true | some t ↦ false ]

-- DELETE … WHERE user_id = ? AND used_at IS NULL
unfoldable pub delete_unused : Text → Exec AuthDb (Unit {0})
delete_unused user_id = execute (λ db. (
  ok tt,
  record db {
    reset_tokens = keep (λ r. not (text_eq r.user_id user_id && is_unused r)) db.reset_tokens;
  },
))

unfoldable pub select_reset : Text → Exec AuthDb (Option ResetRow)
select_reset hash = execute (λ db. (ok (first (has_hash hash) db.reset_tokens), db))

-- UPDATE … SET used_at = ? WHERE id = ?
unfoldable pub mark_used : ℕ → Text → Exec AuthDb (Unit {0})
mark_used now id = execute (λ db. (
  ok tt,
  record db {
    reset_tokens =
        update (λ r. text_eq r.id id) (λ r. record r { used_at = some now }) db.reset_tokens;
  },
))

unfoldable pub redeem : ℕ → Option ResetRow → Exec AuthDb (Option Text)
unfolding mark_used
redeem now none = pure none
redeem now (some r) =
    if not (is_unused r)
    then pure none
    else if ltb r.expires_at now
    then pure none
    else (do mark_used now r.id; pure (some r.user_id))

module _ (sha256 : Text → Text) where
  -- create_reset_token; `id` is the new uuid, `raw` the new token, `ttl` in ticks
  unfoldable pub create_reset_token : Text → Text → ℕ → Text → ℕ → Exec AuthDb Text
  unfolding delete_unused insert_reset
  create_reset_token id raw now user_id ttl = do
    delete_unused user_id
    execute (
        insert_reset (record {
          id = id;
          user_id = user_id;
          token_hash = sha256 raw;
          expires_at = now + ttl;
          used_at = none;
          created_at = now;
        }))
    pure raw

  unfoldable pub consume_stripped : ℕ → Text → Exec AuthDb (Option Text)
  unfolding select_reset redeem
  consume_stripped now [] = pure none
  consume_stripped now (c ∷ s) = do row ← select_reset (sha256 (c ∷ s)); redeem now row

  -- consume_reset_token
  unfoldable pub consume_reset_token : ℕ → Text → Exec AuthDb (Option Text)
  unfolding consume_stripped
  consume_reset_token now raw = consume_stripped now (strip raw)
