-- ===== src/LogRing.antt =====
-- backend/core/logring.py: the ring buffer of recent events. Times are the texts of `_now_iso`.
pub mod Recent
use pyronites.Base.{
  ℕ, suc, ◌+◌, Bool, true, false, not, ◌||◌, Option, none, some, List, [], ◌∷◌, ◌++◌, Text, codes,
  text_eq, starts_with, length, drop, take, keep, ltb, ◌==◌, if◌then◌else◌,
}
use mathlib.Core.List.{reverse}

pub data Level : Type 0 where
  info success warning error : Level

-- `id` stands for its decimal text
pub record Event : Type 0 where
  pub id : ℕ
  pub timestamp : Text
  pub level : Level
  pub action : Text
  pub status_code : Option ℕ
  pub project_id : Option Text

abbrev pub max_entries : ℕ
max_entries = 500

-- the module's globals `_buffer` and `_seq`
pub record Ring : Type 0 where
  pub buffer : List Event
  pub seq : ℕ

-- what a caller gives to `record_event`, and the clock
pub record Entry : Type 0 where
  pub timestamp : Text
  pub level : Level
  pub action : Text
  pub status_code : Option ℕ
  pub project_id : Option Text

abbrev pub event_of : ℕ → Entry → Event
event_of n e = record {
  id = n;
  timestamp = e.timestamp;
  level = e.level;
  action = e.action;
  status_code = e.status_code;
  project_id = e.project_id;
}

-- `append` of a deque with a maximal length
unfoldable pub push {ℓ} : {A : Type ℓ} → ℕ → List A → A → List A
push n xs x = let all = xs ++ x ∷ [] in if ltb n (length all) then drop 1 all else all

unfoldable pub record_event : Entry → Ring → Event × Ring
unfolding push
record_event e r =
    let event = event_of (r.seq + 1) e in
    (event, record { buffer = push max_entries r.buffer event; seq = r.seq + 1 })

-- `e.get("project_id") is None or e.get("project_id") == project_id`
unfoldable pub visible : Text → Event → Bool
visible project e = elim e.project_id [ none ↦ true | some p ↦ text_eq p project ]

-- `if project_id:` the filter
abbrev of_project : Option Text → List Event → List Event
of_project none es = es
of_project (some []) es = es
of_project (some (c ∷ s)) es = keep (visible (c ∷ s)) es

abbrev limited : Option ℕ → List Event → List Event
limited none es = es
limited (some n) es = take n es

-- get_logs
unfoldable pub get_logs : Option ℕ → Option Text → Ring → List Event
unfolding visible
get_logs limit project_id r = limited limit (of_project project_id (reverse r.buffer))

-- a record of the logging module: DEBUG 10, INFO 20, WARNING 30, ERROR 40, CRITICAL 50
pub record LogRecord : Type 0 where
  pub name : Text
  pub levelno : ℕ
  pub message : Text

unfoldable pub level_of : ℕ → Level
level_of n = if n == 30 then warning else if n == 40 || n == 50 then error else info

-- RingBufferHandler.emit, at the time `now`
unfoldable pub emit : Text → LogRecord → Ring → Ring
unfolding level_of record_event
emit now l r =
    if not (starts_with (codes "backend") l.name)
    then r
    else if ltb l.levelno 30
    then r
    else (record_event
        (record {
          timestamp = now;
          level = level_of l.levelno;
          action = l.message;
          status_code = none;
          project_id = none;
        })
        r).1
