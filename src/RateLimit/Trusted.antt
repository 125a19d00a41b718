-- ===== src/RateLimit/Trusted.antt =====
-- `_trusted_proxies` and `_is_trusted`: which peers may set X-Forwarded-For.
--
-- The `ipaddress` module is a parameter: its types of addresses and networks, their parsers, and
-- membership. `raw` is the variable TRUSTED_PROXY_IPS. The cache of the parsed networks, which is
-- looked up by that variable, gives what parsing gives, and is left out.
use pyronites.Base.{Bool, false, Option, none, some, List, [], ◌∷◌, Text, codes, strip, split, any}

abbrev pub default_trusted_proxies : List Text
default_trusted_proxies =
    codes "127.0.0.0/8" ∷ codes "10.0.0.0/8" ∷ codes "172.16.0.0/12" ∷ codes "192.168.0.0/16" ∷ []

-- `[e.strip() for e in … if e.strip()]`
unfoldable pub stripped : List Text → List Text
unfolding strip
stripped [] = []
stripped (e ∷ es) = let rest = stripped es in elim (strip e) [ [] ↦ rest | c ∷ s ↦ (c ∷ s) ∷ rest ]

unfoldable pub entries : Option Text → List Text
unfolding stripped split
entries none = default_trusted_proxies
entries (some raw) = stripped (split b',' raw)

-- What is used of `ipaddress`.
pub record IpAddress (Address Network : Type 0) : Type 0 where
  -- `ip_address`, `ip_network(…, strict=False)`, or the ValueError
  pub address : Text → Option Address
  pub network : Text → Option Network
  pub contains : Network → Address → Bool

module _ {Address Network : Type 0} (ip : IpAddress Address Network) where
  -- an entry that is no network is skipped
  unfoldable pub networks : List Text → List Network
  networks [] = []
  networks (e ∷ es) =
      let rest = networks es in elim (ip.network e) [ none ↦ rest | some n ↦ n ∷ rest ]

  unfoldable pub trusted_proxies : Option Text → List Network
  unfolding networks entries
  trusted_proxies raw = networks (entries raw)

  -- _is_trusted
  unfoldable pub is_trusted : Option Text → Text → Bool
  unfolding trusted_proxies
  is_trusted raw host = elim (ip.address host) [
    | none ↦ false
    | some a ↦ any (λ n. ip.contains n a) (trusted_proxies raw)
  ]
