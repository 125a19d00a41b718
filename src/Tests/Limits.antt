-- ===== src/Tests/Limits.antt =====
-- The rate limiter and the log.
use pyronites.Base.{
  ℕ, ◌+◌, ◌≤◌, ◌≡◌, Option, none, some, List, [], ◌∷◌, ◌++◌, arith, Text, codes, text_eq,
}
use pyronites.RateLimit.{Hit, count_hits}
use pyronites.RateLimit.Window.{Request, run, granted_within_limit}
use pyronites.RateLimit.ClientIp.{get_client_ip, spoofed_entries}
use pyronites.RateLimit.Trusted.{IpAddress, is_trusted}
use pyronites.LogRing.{Level, Entry, max_entries}
use pyronites.LogRing.Recent.{last, events_from, record_all, record_all-last}

abbrev host_key : Text
host_key = codes "ip:1.2.3.4"

abbrev login : Text
login = codes "auth:login"

abbrev hit : ℕ → Hit
hit t = record { key = host_key; endpoint = login; hit_at = t; expires_at = t + 60 }

abbrev at_time : ℕ → Request
at_time t = record { key = host_key; endpoint = login; now = t }

-- four requests against a limit of two
abbrev burst : List Request
burst = at_time 1 ∷ at_time 2 ∷ at_time 3 ∷ at_time 70 ∷ []

granted_within_limit_example : count_hits host_key login 60 70 (run 1 2 60 burst ([], [])).1 ≤ 2
granted_within_limit_example =
    granted_within_limit 1 2 60 burst 70 host_key login
      (omega arith, (omega arith, (omega arith, (omega arith, tt))))
      (omega arith, (omega arith, (omega arith, (omega arith, tt))))

-- addresses and networks are texts, and a network holds its own address
abbrev addresses : IpAddress Text Text
addresses = record { address = some; network = some; contains = text_eq }

abbrev proxies : Option Text
proxies = some (codes "10.0.0.1, 10.0.0.2")

spoofed_entries_example :
    get_client_ip (is_trusted addresses proxies) (record {
      peer = some (codes "10.0.0.1");
      forwarded = some (codes "6.6.6.6" ++ b',' ∷ codes "1.2.3.4");
    })
    ≡ get_client_ip (is_trusted addresses proxies) (record {
      peer = some (codes "10.0.0.1");
      forwarded = some (codes "7.7,8" ++ b',' ∷ codes "1.2.3.4");
    })
spoofed_entries_example =
    spoofed_entries addresses proxies (some (codes "10.0.0.1")) (codes "6.6.6.6") (codes "7.7,8")
      (codes "1.2.3.4")

abbrev entry : Option Text → Entry
entry project = record {
  timestamp = codes "t";
  level = Level.info;
  action = codes "GET /";
  status_code = some 200;
  project_id = project;
}

abbrev calls : List Entry
calls = entry none ∷ entry (some (codes "p")) ∷ entry (some (codes "q")) ∷ []

record_all-last_example :
    record_all calls (record { buffer = []; seq = 0 })
    ≡ record { buffer = last max_entries (events_from 0 calls); seq = 3 }
record_all-last_example = record_all-last calls
