-- ===== src/Api/Accounts/Private.antt =====
-- backend/api/auth.py: what the answer of forgot_password tells.
use pyronites.Base.{
  ℕ, ◌*◌, ◌≡◌, ◌∙◌, ap, sym, subst, refl, arith, Bool, true, false, List, Text, codes,
}
use pyronites.Db.{Result, ok, err, Conn, Exec, lift, continue, ◌>>=◌, ◌>>◌}
use pyronites.Db.Transaction.{catch_total}
use pyronites.Auth.Users.{get_user_by_email}
use pyronites.RateLimit.{Hit, Verdict, check_and_record}
use pyronites.Api.Accounts.{
  Platform, Setting, put_hits, in_users, limited, refuse, body_email, ip_key, email_key,
  forgot_rate_window,
}
use pyronites.Api.Accounts.Recovery.{send_if_active, mail_token, forgot_password}

-- the limiter sees the same, and the same statements will fail
abbrev Agree : Conn Platform → Conn Platform → Type 0
Agree w v = (w.tables.hits ≡ v.tables.hits) × (w.faults ≡ v.faults)

-- the action answers the same, and leaves them in agreement
abbrev Alike : {A : Type 0} → Exec Platform A → Type 0
Alike act = (w v : Conn Platform) → Agree w v → ((act w).0 ≡ (act v).0) × Agree (act w).1 (act v).1

module _ {A B : Type 0} where
  Alike-bind :
      (m : Exec Platform A) (f : A → Exec Platform B)
      → Alike m
      → ((a : A) (w v : Conn Platform) → Agree w v → (f a w).0 ≡ (f a v).0)
      → (w v : Conn Platform) → Agree w v
      → ((m >>= f) w).0 ≡ ((m >>= f) v).0
  Alike-bind m f alike next w v agree =
      let (same, after) = alike w v agree in go (m w) (m v) same after
    where
      go :
          (x y : Result A × Conn Platform)
          → x.0 ≡ y.0
          → Agree x.1 y.1
          → (continue x f).0 ≡ (continue y f).0
      go (ok a, w) (ok b, v) e agree =
          (let same : a ≡ b = ground arith in
            subst (λ c. (f a w).0 ≡ (f c v).0) same (next a w v agree))
      go (ok a, w) (err e, v) h agree = absurd (ground arith)
      go (err e, w) (ok b, v) h agree = absurd (ground arith)
      go (err e, w) (err d, v) h agree = (let same : e ≡ d = ground arith in ap err same)

module _ (px : Setting) (now : ℕ) where
  -- a call on the limiter's answer
  abbrev after :
      Conn Platform → Result Verdict × Conn (List Hit) → Result (Unit {0}) × Conn Platform
  after w x =
      continue (x.0, record { tables = put_hits x.1.tables w.tables; faults = x.1.faults })
        (refuse px now)

  refuse-Alike :
      (b : Bool) (x : Verdict) (c : Conn (List Hit)) (w v : Conn Platform)
      → x.allowed ≡ b
      → ((after w (ok x, c)).0 ≡ (after v (ok x, c)).0)
        × Agree (after w (ok x, c)).1 (after v (ok x, c)).1
  refuse-Alike true x c w v e = rw e (refl, (refl, refl))
  refuse-Alike false x c w v e = rw e (refl, (refl, refl))

  after-Alike :
      (x : Result Verdict × Conn (List Hit)) (w v : Conn Platform)
      → ((after w x).0 ≡ (after v x).0) × Agree (after w x).1 (after v x).1
  after-Alike (ok x, c) w v = refuse-Alike x.allowed x c w v refl
  after-Alike (err e, c) w v = (refl, (refl, refl))

  -- the limiter reads no account
  limited-Alike :
      (key endpoint : Text) (limit window : ℕ) → Alike (limited px now key endpoint limit window)
  unfolding limited
  limited-Alike key endpoint limit window w v (hits, faults) =
      let act = check_and_record px.second key endpoint limit (window * px.second) now in
      let one = act (record { tables = w.tables.hits; faults = w.faults }) in
      let two = act (record { tables = v.tables.hits; faults = v.faults }) in
      let same : one ≡ two =
        ap (λ h. act (record { tables = h; faults = w.faults })) hits
        ∙ ap (λ f. act (record { tables = v.tables.hits; faults = f })) faults in
      subst (λ z. ((after w one).0 ≡ (after v z).0) × Agree (after w one).1 (after v z).1) same
        (after-Alike one w v)

  module _ (send : Text → Text → Result (Unit {0})) where
    mail_token_total :
        (id raw address : Text) (w : Conn Platform)
        → (mail_token px now send id raw address w).0 ≡ ok tt
    unfolding mail_token
    mail_token_total id raw address w =
        (catch_total (in_users (get_user_by_email address) >>= send_if_active px now send id raw) tt
          w).1

    -- The answer to a call of `forgot_password` depends on the limiter alone: on two databases with the
    -- same hits, whichever statements fail, it is the same, whether or not the address has an account.
    pub forgot_password_private :
        (id raw ip email : Text) (w v : Conn Platform)
        → w.tables.hits ≡ v.tables.hits
        → w.faults ≡ v.faults
        → (forgot_password px now send id raw ip email w).0
          ≡ (forgot_password px now send id raw ip email v).0
    unfolding forgot_password
    forgot_password_private id raw ip email w v hits faults = go (body_email px email)
      where
        ip_limit : Exec Platform (Unit {0})
        ip_limit =
            limited px now (ip_key ip) (codes "auth:forgot") px.forgot_rate_limit forgot_rate_window

        email_limit : Text → Exec Platform (Unit {0})
        email_limit address =
            limited px now (email_key address) (codes "auth:forgot") px.forgot_rate_limit
              forgot_rate_window

        sent : Text → Exec Platform (Unit {0})
        sent address = mail_token px now send id raw address

        go :
            (r : Result Text)
            → ((lift r >>= λ address. ip_limit >> (email_limit address >> sent address)) w).0
              ≡ ((lift r >>= λ address. ip_limit >> (email_limit address >> sent address)) v).0
        go (err e) = refl
        go (ok address) =
            Alike-bind ip_limit (λ _. email_limit address >> sent address)
              (limited-Alike (ip_key ip) (codes "auth:forgot") px.forgot_rate_limit
                forgot_rate_window)
              (λ _.
                Alike-bind (email_limit address) (λ _. sent address)
                  (limited-Alike (email_key address) (codes "auth:forgot") px.forgot_rate_limit
                    forgot_rate_window)
                  (λ _ w v _.
                    mail_token_total id raw address w ∙ sym (mail_token_total id raw address v)))
              w v (hits, faults)
