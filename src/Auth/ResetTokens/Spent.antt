-- ===== src/Auth/ResetTokens/Spent.antt =====
-- A reset token that was redeemed: the calls that may come after, and two calls at once.
use pyronites.Base.{
  ℕ, ◌≡◌, ◌≤◌, ◌≢◌, Bool, true, false, not, ◌&&◌, ◌||◌, Option, none, some, List, [], ◌∷◌, Text,
  text_eq, text_eq_refl, strip, any, ltb, if◌then◌else◌, first, first-append_found, first-keep_kept,
  first-update, arith, Bool-cases, inl, inr, refl,
}
use pyronites.Db.{ok, Exc, Exec, Conn, healthy, execute, pure, ◌>>=◌}
use pyronites.Db.Preserves.{
  Preserves, Preserves-execute, Preserves-bind, Preserves-pure, Preserves-if,
}
use pyronites.Auth.{ResetRow, AuthDb, has_id, has_hash, insert_reset}
use pyronites.Auth.ResetTokens.{
  is_unused, delete_unused, select_reset, mark_used, redeem, create_reset_token, consume_stripped,
  consume_reset_token,
}
use pyronites.Auth.ResetTokens.Use.{consumed, consume_reset_token_sound}

-- a call of create_reset_token or consume_reset_token, and what fails in it
pub data TokenCall : Type 0 where
  create : Text → Text → ℕ → Text → ℕ → List (Option Exc) → TokenCall
  consume : ℕ → Text → List (Option Exc) → TokenCall

module _ (sha256 : Text → Text) where
  abbrev after_call : TokenCall → AuthDb → AuthDb
  after_call (create id raw now user_id ttl faults) t =
      (create_reset_token sha256 id raw now user_id ttl
        (record { tables = t; faults = faults })).1.tables
  after_call (consume now raw faults) t =
      (consume_reset_token sha256 now raw (record { tables = t; faults = faults })).1.tables

  pub after_all : List TokenCall → AuthDb → AuthDb
  after_all [] t = t
  after_all (c ∷ cs) t = after_all cs (after_call c t)

  -- two redemptions of one token at once: both have read its row before one has marked it
  abbrev pub two_at_once : ℕ → Text → Exec AuthDb (Option Text × Option Text)
  two_at_once now raw = do
    one ← select_reset (sha256 (strip raw))
    two ← select_reset (sha256 (strip raw))
    a ← redeem now one
    b ← redeem now two
    pure (a, b)

  module _ (hash : Text) where
    abbrev IsSpent : AuthDb → Type 0
    IsSpent t =
        (r : ResetRow) × (first (has_hash hash) t.reset_tokens ≡ some r) × (is_unused r ≡ false)

    delete_unused-IsSpent : (user_id : Text) → Preserves IsSpent (delete_unused user_id)
    unfolding delete_unused
    delete_unused-IsSpent user_id = Preserves-execute _ (λ t (r, found, used). (
      r,
      first-keep_kept (has_hash hash) (λ x. not (text_eq x.user_id user_id && is_unused x))
          t.reset_tokens r found (kept (text_eq r.user_id user_id) (is_unused r) used),
      used,
    ))
      where
        kept : (a b : Bool) → b ≡ false → not (a && b) ≡ true
        kept true b h = ground arith
        kept false b h = refl

    insert_reset-IsSpent : (row : ResetRow) → Preserves IsSpent (execute (insert_reset row))
    unfolding insert_reset
    insert_reset-IsSpent row = Preserves-execute _ (λ t (r, found, used).
        elim (Bool-cases (
          any (λ x. text_eq x.id row.id || has_hash row.token_hash x) t.reset_tokens
          || not (any (has_id row.user_id) t.users))) [
            | inl refused ↦ rw refused (r, found, used)
            | inr added ↦
                rw added
                  (r, first-append_found (has_hash hash) t.reset_tokens (row ∷ []) r found, used)
          ])

    mark_used-IsSpent : (now : ℕ) (id : Text) → Preserves IsSpent (mark_used now id)
    unfolding mark_used
    mark_used-IsSpent now id = Preserves-execute _ (λ t (r, found, used).
        let again =
          first-update (has_hash hash) (λ x. text_eq x.id id) (λ x. record x { used_at = some now })
            t.reset_tokens r (λ x. refl) found in
        (
          if text_eq r.id id then record r { used_at = some now } else r,
          again,
          still (text_eq r.id id) r used,
        ))
      where
        still :
            (b : Bool) (r : ResetRow)
            → is_unused r ≡ false
            → is_unused (if b then record r { used_at = some now } else r) ≡ false
        still true r h = refl
        still false r h = h

    redeem-IsSpent : (now : ℕ) (row : Option ResetRow) → Preserves IsSpent (redeem now row)
    unfolding redeem
    redeem-IsSpent now none = Preserves-pure none
    redeem-IsSpent now (some r) = Preserves-if (not (is_unused r)) _ _ (Preserves-pure none) (
        Preserves-if (ltb r.expires_at now) _ _ (Preserves-pure none) (
          Preserves-bind (mark_used now r.id) _ (mark_used-IsSpent now r.id)
            (λ _. Preserves-pure (some r.user_id))))

    stripped-IsSpent : (now : ℕ) (s : Text) → Preserves IsSpent (consume_stripped sha256 now s)
    unfolding consume_stripped select_reset
    stripped-IsSpent now [] = Preserves-pure none
    stripped-IsSpent now (c ∷ s) =
        Preserves-bind (select_reset (sha256 (c ∷ s))) _ (Preserves-execute _ (λ t h. h))
          (redeem-IsSpent now)

    consume-IsSpent :
        (now : ℕ) (raw : Text) → Preserves IsSpent (consume_reset_token sha256 now raw)
    unfolding consume_reset_token
    consume-IsSpent now raw = stripped-IsSpent now (strip raw)

    create-IsSpent :
        (id raw : Text) (now : ℕ) (user_id : Text) (ttl : ℕ)
        → Preserves IsSpent (create_reset_token sha256 id raw now user_id ttl)
    unfolding create_reset_token
    create-IsSpent id raw now user_id ttl =
        Preserves-bind (delete_unused user_id) _ (delete_unused-IsSpent user_id)
          (λ _. Preserves-bind _ _ (insert_reset-IsSpent _) (λ _. Preserves-pure raw))

    after_all-IsSpent : (cs : List TokenCall) (t : AuthDb) → IsSpent t → IsSpent (after_all cs t)
    unfolding after_all
    after_all-IsSpent [] t h = h
    after_all-IsSpent (create id raw now user_id ttl faults ∷ cs) t h =
        after_all-IsSpent cs _
          ((create-IsSpent id raw now user_id ttl).kept (record { tables = t; faults = faults }) h)
    after_all-IsSpent (consume now raw faults ∷ cs) t h =
        after_all-IsSpent cs _
          ((consume-IsSpent now raw).kept (record { tables = t; faults = faults }) h)

  spends :
      (now : ℕ) (raw : Text) (w : Conn AuthDb) (uid : Text)
      → (consume_reset_token sha256 now raw w).0 ≡ ok (some uid)
      → IsSpent (sha256 (strip raw)) (consume_reset_token sha256 now raw w).1.tables
  unfolding consume_reset_token
  spends now raw w uid h =
      let (r, found, _, _, _, after) = consumed sha256 now (strip raw) w uid h in
      let again =
        first-update (has_hash (sha256 (strip raw))) (λ x. text_eq x.id r.id)
          (λ x. record x { used_at = some now }) w.tables.reset_tokens r (λ x. refl) found in
      (record r { used_at = some now }, rw after (rw (text_eq_refl r.id) at again), refl)

  refused :
      (now : ℕ) (raw : Text) (w : Conn AuthDb) (uid : Text)
      → IsSpent (sha256 (strip raw)) w.tables
      → (consume_reset_token sha256 now raw w).0 ≢ ok (some uid)
  unfolding consume_reset_token
  refused now raw w uid (r, found, used) h =
      let (q, there, unused, _, _, _) = consumed sha256 now (strip raw) w uid h in ground arith

  both_win :
      (now : ℕ) (raw : Text) (t : AuthDb) (r : ResetRow)
      → first (has_hash (sha256 (strip raw))) t.reset_tokens ≡ some r
      → is_unused r ≡ true
      → now ≤ r.expires_at
      → (two_at_once now raw (healthy t)).0 ≡ ok (some r.user_id, some r.user_id)
  unfolding select_reset redeem mark_used execute
  both_win now raw t r found unused fresh =
      let in_time : ltb r.expires_at now ≡ false = ground arith in
      rw found (rw unused (rw in_time refl))

  -- A token that was redeemed is refused to every call that begins after that one has returned, no
  -- matter which calls of `create_reset_token` and `consume_reset_token` came between, and whatever
  -- statements failed in any of them. But two calls that both read the row before either has marked
  -- it are both answered with the user, on a database that does not fail.
  pub consume_once :
      (now : ℕ) (raw : Text) (w : Conn AuthDb) (uid : Text) (calls : List TokenCall) (later : ℕ)
      (faults : List (Option Exc)) (uid' : Text)
      → (consume_reset_token sha256 now raw w).0 ≡ ok (some uid)
      → ((consume_reset_token sha256 later raw (record {
        tables = after_all calls (consume_reset_token sha256 now raw w).1.tables;
        faults = faults;
      })).0
          ≢ ok (some uid'))
        × ((two_at_once now raw (healthy w.tables)).0 ≡ ok (some uid, some uid))
  consume_once now raw w uid calls later faults uid' h = (
    refused later raw _ uid'
        (after_all-IsSpent (sha256 (strip raw)) calls _ (spends now raw w uid h)),
    race h,
  )
    where
      race :
          (consume_reset_token sha256 now raw w).0 ≡ ok (some uid)
          → (two_at_once now raw (healthy w.tables)).0 ≡ ok (some uid, some uid)
      race k =
          let (r, found, unused, fresh, owner) = consume_reset_token_sound sha256 now raw w uid k in
          rw owner (both_win now raw w.tables r found unused fresh)
