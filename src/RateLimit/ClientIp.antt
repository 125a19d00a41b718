-- ===== src/RateLimit/ClientIp.antt =====
-- `get_client_ip`: which address a request is limited by.
--
-- `trusted` is the answer of `_is_trusted`, which Trusted defines.
use pyronites.RateLimit.Trusted.{IpAddress, is_trusted}
use pyronites.Base.{
  ℕ, Bool, Option, none, some, [], ◌∷◌, ◌++◌, Text, codes, strip, ◌==◌, if◌then◌else◌, ◌≡◌, refl,
  arith, ap,
}

-- the parts of `request` that are read: the peer's host, and the X-Forwarded-For header
pub record Request : Type 0 where
  pub peer : Option Text
  pub forwarded : Option Text

abbrev comma : ℕ
comma = b','

-- `s.split(",")[-1]`, after the part `cur` of the present piece
unfoldable pub last_piece : Text → Text → Text
last_piece cur [] = cur
last_piece cur (c ∷ s) = last_piece (if c == comma then [] else cur ++ c ∷ []) s

abbrev or_else : Text → Text → Text
or_else [] d = d
or_else (c ∷ s) d = c ∷ s

-- the header is missing, or empty, or its last entry is blank: the peer
unfoldable pub from_header : Text → Option Text → Text
unfolding last_piece strip
from_header peer none = peer
from_header peer (some []) = peer
from_header peer (some (c ∷ s)) = or_else (strip (last_piece [] (c ∷ s))) peer

abbrev peer_of : Option Text → Text
peer_of none = codes "unknown"
peer_of (some host) = host

module _ (trusted : Text → Bool) where
  unfoldable pub get_client_ip : Request → Text
  unfolding from_header
  get_client_ip r =
      let peer = peer_of r.peer in if trusted peer then from_header peer r.forwarded else peer

last_piece-append : (cur s last : Text) → last_piece cur (s ++ comma ∷ last) ≡ last_piece [] last
unfolding last_piece
last_piece-append cur [] last = refl
last_piece-append cur (c ∷ s) last =
    last_piece-append (if c == comma then [] else cur ++ c ∷ []) s last

from_header-append :
    (peer sent last : Text)
    → from_header peer (some (sent ++ comma ∷ last)) ≡ or_else (strip (last_piece [] last)) peer
unfolding from_header
from_header-append peer [] last = refl
from_header-append peer (c ∷ s) last =
    ap (λ p. or_else (strip p) peer) (last_piece-append (if c == comma then [] else c ∷ []) s last)

module _ {Address Network : Type 0} (ip : IpAddress Address Network) (raw : Option Text) where
  -- Whatever TRUSTED_PROXY_IPS says and whoever the peer is: what stands in the header before its
  -- last comma, and so whatever a client put in front of the entry that the nearest proxy appended,
  -- does not change the address that is used.
  pub spoofed_entries :
      (peer : Option Text) (sent sent' last : Text)
      → get_client_ip
          (is_trusted ip raw)
          (record { peer = peer; forwarded = some (sent ++ comma ∷ last) })
        ≡ get_client_ip
            (is_trusted ip raw)
            (record { peer = peer; forwarded = some (sent' ++ comma ∷ last) })
  unfolding get_client_ip
  spoofed_entries peer sent sent' last = ground (
    arith,
    from_header-append (peer_of peer) sent last,
    from_header-append (peer_of peer) sent' last,
  )
