-- ===== src/Api/Accounts/Kept.antt =====
-- backend/api/auth.py: the steps of the endpoints that leave the accounts alone.
use pyronites.Base.{ℕ, ◌*◌, ◌≡◌, refl, arith, Text, List, Option, none, some}
use pyronites.Db.{ok, Conn, Exec, pure, ◌>>=◌, ◌>>◌}
use pyronites.Db.Preserves.{
  Preserves, Preserves-pure, Preserves-raise, Preserves-catch, Preserves-bind, Preserves-if,
  Preserves-within,
}
use pyronites.Auth.{User, AuthDb}
use pyronites.RateLimit.{Hit, check_and_record}
use pyronites.Projects.{Registry, set_last_project}
use pyronites.Projects.Operations.{ensure_default_project}
use pyronites.Api.Accounts.{
  Platform, Setting, put_hits, put_registry, in_hits, in_registry, limited, refuse,
}
use pyronites.Api.Accounts.Entry.{default_project, or_unauthorized}

module _ (a : AuthDb) where
  -- the tables of Auth are those
  abbrev pub Untouched : Platform → Type 0
  Untouched p = p.auth ≡ a

  in_hits-Untouched : {A : Type 0} (act : Exec (List Hit) A) → Preserves Untouched (in_hits act)
  in_hits-Untouched act = Preserves-within (λ p. p.hits) put_hits act (λ t s h. h)

  pub in_registry-Untouched :
      {A : Type 0} (act : Exec Registry A) → Preserves Untouched (in_registry act)
  in_registry-Untouched act = Preserves-within (λ p. p.registry) put_registry act (λ t s h. h)

  pub limited-Untouched :
      (px : Setting) (now : ℕ) (key endpoint : Text) (limit window : ℕ)
      → Preserves Untouched (limited px now key endpoint limit window)
  unfolding limited
  limited-Untouched px now key endpoint limit window =
      Preserves-bind _ (refuse px now)
        (in_hits-Untouched (check_and_record px.second key endpoint limit (window * px.second) now))
        (λ v. Preserves-if v.allowed _ _ (Preserves-pure tt) (Preserves-raise _))

  pub default_project-Untouched :
      (px : Setting) (now : ℕ) (project_id user_id : Text)
      → Preserves Untouched (default_project px now project_id user_id)
  unfolding default_project
  default_project-Untouched px now project_id user_id =
      let act = (do
        p ← ensure_default_project px.prepare px.str project_id now user_id
        set_last_project user_id p.id
        pure (some p)) in
      Preserves-catch (in_registry act) (λ _. pure none) (in_registry-Untouched act)
        (λ e. Preserves-pure none)

-- what follows the check for an account runs for the account that there is
pub found_user :
    {A : Type 0} (px : Setting) (now : ℕ) (found : Option User) (next : User → Exec Platform A)
    (w : Conn Platform) (a : A)
    → ((or_unauthorized px now found >>= next) w).0 ≡ ok a
    → (u : User) × (found ≡ some u)
      × ((next u w).0 ≡ ok a)
      × ((or_unauthorized px now found >>= next) w ≡ next u w)
found_user px now none next w a h = absurd (ground arith)
found_user px now (some u) next w a h = (u, refl, h, refl)
