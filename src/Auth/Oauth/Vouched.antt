-- ===== src/Auth/Oauth/Vouched.antt =====
-- When the address of a GitHub profile counts as verified.
use pyronites.Base.{
  ◌≡◌, ◌⊎◌, inl, inr, ◌∙◌, refl, subst, arith, true, ◌&&◌, Option, none, some, List, [], ◌∷◌, Text,
  codes, All, first, first-All, All-map, Bool-cases,
}
use pyronites.Json.{Value, str, arr, obj, Items, nil, cons, Fields, get, truthy}
use pyronites.Db.{Result, ok}
use pyronites.Auth.Oauth.Providers.{Provider, Web, http_json}
use pyronites.Auth.Oauth.Profile.{
  verified_addresses, is_primary, chosen, or_head, address_of, picked, from_list, adopt,
  github_primary_email, github_email,
}

abbrev pub IsVerified : Fields → Type 0
IsVerified fs = truthy (get (codes "verified") fs) ≡ true

abbrev pub Listed : Fields → Items → Type 0
Listed fs nil = ⊥
Listed fs (cons v vs) = (v ≡ obj fs) ⊎ Listed fs vs

Listed-later :
    (v : Value) (vs : Items) (es : List Fields)
    → All (λ fs. IsVerified fs × Listed fs vs) es
    → All (λ fs. IsVerified fs × Listed fs (cons v vs)) es
Listed-later v vs es h = All-map _ _ es (λ fs k. (k.0, inr k.1)) h

verified_addresses-All :
    (vs : Items) → All (λ fs. IsVerified fs × Listed fs vs) (verified_addresses vs)
unfolding verified_addresses
verified_addresses-All nil = tt
verified_addresses-All (cons (obj fs) vs) =
    let rest = Listed-later (obj fs) vs _ (verified_addresses-All vs) in
    elim (Bool-cases (truthy (get (codes "verified") fs))) [
      | inl t ↦ rw t ((t, inl refl), rest)
      | inr f ↦ rw f rest
    ]
verified_addresses-All (cons (str s) vs) = Listed-later _ vs _ (verified_addresses-All vs)
verified_addresses-All (cons v vs) = Listed-later _ vs _ (verified_addresses-All vs)

head_listed :
    (P : Fields → Type 0) (es : List Fields) (o : Option Fields) (fs : Fields)
    → All P es
    → first is_primary es ≡ o
    → or_head es o ≡ some fs
    → P fs
head_listed P [] none fs h found e = absurd (ground arith)
head_listed P (x ∷ es) none fs h found e = let same : x ≡ fs = ground arith in subst P same h.0
head_listed P es (some x) fs h found e = first-All P is_primary es fs h (found ∙ e)

chosen_listed :
    (P : Fields → Type 0) (es : List Fields) (fs : Fields) → All P es → chosen es ≡ some fs → P fs
chosen_listed P es fs h e = head_listed P es _ fs h refl e

module _ (web : Web) where
  abbrev pub addresses : Provider → Text → Result Value
  addresses p token = http_json web (record { url = p.emails_url; form = none; token = some token })

  -- the answer of `/user/emails` lists a verified address that is this one
  abbrev pub InList : Value → Result Value → Type 0
  InList v (ok (arr es)) =
      (fs : Fields) × Listed fs es × IsVerified fs × (v ≡ str (address_of web fs))
  InList v _ = ⊥

  picked_sound :
      (es : Items) (o : Option Fields) (email v : Value)
      → chosen (verified_addresses es) ≡ o
      → adopt web email (picked web o) ≡ (v, true)
      → InList v (ok (arr es))
  picked_sound es none email v c h = absurd (ground arith)
  picked_sound es (some fs) email v c h =
      let (sound, there) = chosen_listed _ _ fs (verified_addresses-All es) c in
      (fs, there, sound, ground arith)

  from_list_sound :
      (r : Result Value) (email v : Value)
      → adopt web email (from_list web r) ≡ (v, true)
      → InList v r
  from_list_sound (ok (arr es)) email v h = picked_sound es _ email v refl h
  from_list_sound _ email v h = absurd (ground arith)

  -- An address of a GitHub profile counts as verified only where GitHub says so of that address: the
  -- user object has it and says that it is verified, or it is a verified entry of the answer of
  -- `/user/emails`.
  github_email_sound :
      (p : Provider) (token : Text) (user : Fields) (v : Value)
      → github_email web p token user ≡ (v, true)
      → ((v ≡ get (codes "email") user) × (truthy (get (codes "verified_email") user) ≡ true))
        ⊎ InList v (addresses p token)
  unfolding github_email github_primary_email
  github_email_sound p token user v h =
      elim (Bool-cases
        (truthy (get (codes "email") user) && truthy (get (codes "verified_email") user))) [
          | inl t ↦ inl (ground arith)
          | inr f ↦
              inr (from_list_sound (addresses p token) (get (codes "email") user) v (ground arith))
        ]
