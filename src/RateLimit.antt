-- ===== src/RateLimit.antt =====
-- backend/core/rate_limit.py: the sliding-window limiter and the key that it is applied to.
--
-- Times are whole ticks (microseconds, say) since the epoch: `now` is the answer of `time.time()`,
-- and `window` is the window in ticks. `hit_at > now - window` is written `now < hit_at + window`.
pub mod ClientIp
pub mod Check
pub mod Trusted
pub mod Window
pub mod Idle
use pyronites.Base.{
  ℕ, ◌+◌, ◌-◌, ◌*◌, ◌/◌, Bool, true, false, not, ◌&&◌, List, ◌∷◌, ◌++◌, [], Text, text_eq, ltb, leb,
  length, keep, if◌then◌else◌,
}
use pyronites.Db.{Result, ok, Exec, pure, execute, transaction, catch, ◌>>=◌, ◌>>◌}

-- a row of rate_limit_hits
pub record Hit : Type 0 where
  pub key : Text
  pub endpoint : Text
  pub hit_at : ℕ
  pub expires_at : ℕ

-- a row of this key and endpoint
unfoldable pub is_of : Text → Text → Hit → Bool
is_of key endpoint h = text_eq h.key key && text_eq h.endpoint endpoint

-- `expires_at < now`: what the lazy cleanup deletes
unfoldable pub is_expired : Text → Text → ℕ → Hit → Bool
unfolding is_of
is_expired key endpoint now h = is_of key endpoint h && ltb h.expires_at now

-- `hit_at > window_start`: what counts against the limit
unfoldable pub is_live : Text → Text → ℕ → ℕ → Hit → Bool
unfolding is_of
is_live key endpoint window now h = is_of key endpoint h && ltb now (h.hit_at + window)

unfoldable pub cleanup : Text → Text → ℕ → List Hit → Result (Unit {0}) × List Hit
unfolding is_expired
cleanup key endpoint now t = (ok tt, keep (λ h. not (is_expired key endpoint now h)) t)

unfoldable pub count_hits : Text → Text → ℕ → ℕ → List Hit → ℕ
unfolding is_live
count_hits key endpoint window now t = length (keep (is_live key endpoint window now) t)

unfoldable pub insert_hit : Text → Text → ℕ → ℕ → List Hit → Result (Unit {0}) × List Hit
insert_hit key endpoint window now t = (
  ok tt,
  t ++ record { key = key; endpoint = endpoint; hit_at = now; expires_at = now + window } ∷ [],
)

-- `(allowed, remaining, reset_at)`
pub record Verdict : Type 0 where
  pub allowed : Bool
  pub remaining : ℕ
  pub reset_at : ℕ

-- the ticks of one second
module _ (second : ℕ) where
  -- `math.ceil(now + window_sec)`, in seconds
  unfoldable pub reset_at : ℕ → ℕ → ℕ
  reset_at window now = (now + window + (second - 1)) / second

  -- The limit is reached: the oldest hit is read, and the value computed from it, `retry_after`,
  -- is not part of the answer.
  unfoldable pub block_request : ℕ → ℕ → Exec (List Hit) Verdict
  unfolding reset_at
  block_request window now = do
    execute (λ t. (ok tt, t))
    pure (record { allowed = false; remaining = 0; reset_at = reset_at window now })

  unfoldable pub admit_request : Text → Text → ℕ → ℕ → ℕ → ℕ → Exec (List Hit) Verdict
  unfolding insert_hit reset_at
  admit_request key endpoint limit window now count = do
    execute (insert_hit key endpoint window now)
    pure (record { allowed = true; remaining = limit - count - 1; reset_at = reset_at window now })

  -- the block of the transaction
  unfoldable pub check_block : Text → Text → ℕ → ℕ → ℕ → Exec (List Hit) Verdict
  unfolding cleanup block_request admit_request
  check_block key endpoint limit window now = do
    execute (cleanup key endpoint now)
    count ← execute (λ t. (ok (count_hits key endpoint window now t), t))
    if leb limit count
        then block_request window now
        else admit_request key endpoint limit window now count

  -- check_and_record: `except Exception` allows the request
  unfoldable pub check_and_record : Text → Text → ℕ → ℕ → ℕ → Exec (List Hit) Verdict
  unfolding check_block execute transaction
  check_and_record key endpoint limit window now =
      catch (transaction (check_block key endpoint limit window now))
        (λ _. pure (record { allowed = true; remaining = limit; reset_at = reset_at window now }))
