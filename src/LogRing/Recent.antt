-- ===== src/LogRing/Recent.antt =====
-- The ring holds the most recent events.
use mathlib.Core.List.{reverse, append-nil, append_assoc}
use pyronites.Base.{
  ℕ, zero, suc, ◌+◌, ◌-◌, ◌≤◌, ◌≡◌, true, Option, none, some, List, [], ◌∷◌, ◌++◌, Text, text_eq,
  length, length-append, drop, take, keep, All, All-map, All-keep_self, Option-cases, text_eq_sound,
  ltb, arith, refl, ap, sym, ◌∙◌, Bool-cases, inl, inr, ◌⊎◌,
}
use pyronites.LogRing.{
  Event, Entry, Ring, max_entries, event_of, push, record_event, visible, limited, get_logs,
}

-- the last `n` of a list
abbrev pub last {ℓ} : {A : Type ℓ} → ℕ → List A → List A
last n xs = drop (length xs - n) xs

module _ {ℓ} {A : Type ℓ} where
  drop-append :
      (k : ℕ) (xs : List A) (x : A) → k ≤ length xs → drop k (xs ++ x ∷ []) ≡ drop k xs ++ x ∷ []
  drop-append zero xs x h = refl
  drop-append (suc k) [] x h = absurd (omega arith)
  drop-append (suc k) (y ∷ xs) x h = drop-append k xs x (omega arith)

  drop-drop : (k : ℕ) (xs : List A) → drop 1 (drop k xs) ≡ drop (suc k) xs
  drop-drop zero xs = refl
  drop-drop (suc k) [] = refl
  drop-drop (suc k) (y ∷ xs) = drop-drop k xs

  length-drop : (k : ℕ) (xs : List A) → length (drop k xs) ≡ length xs - k
  length-drop zero xs = omega arith
  length-drop (suc k) [] = omega arith
  length-drop (suc k) (y ∷ xs) = omega (arith, length-drop k xs)

  push-last : (n : ℕ) (xs : List A) (x : A) → push n (last n xs) x ≡ last n (xs ++ x ∷ [])
  unfolding push
  push-last n xs x =
      let long = length-append xs (x ∷ []) in
      elim (Bool-cases (ltb (length xs) n)) [
        | inl room ↦
            let none_now : length xs - n ≡ 0 = ground arith in
            let none_then : length (xs ++ x ∷ []) - n ≡ 0 = ground arith in
            rw (none_now, none_then) (ground arith)
        | inr full ↦
            let k = length xs - n in
            let le : k ≤ length xs = omega arith in
            let more : length (xs ++ x ∷ []) - n ≡ suc k = ground arith in
            let over : ltb n (length (drop k xs ++ x ∷ [])) ≡ true =
              ground (arith, length-append (drop k xs) (x ∷ []), length-drop k xs) in
            rw (more, over) (ap (drop 1) (sym (drop-append k xs x le)) ∙ drop-drop k (xs ++ x ∷ []))
      ]

-- the events of a list of calls, numbered from `n + 1`
pub events_from : ℕ → List Entry → List Event
events_from n [] = []
events_from n (e ∷ es) = event_of (n + 1) e ∷ events_from (n + 1) es

pub record_all : List Entry → Ring → Ring
record_all [] r = r
record_all (e ∷ es) r = record_all es (record_event e r).1

ring_from :
    (es : List Entry) (old : List Event) (n : ℕ)
    → record_all es (record { buffer = last max_entries old; seq = n })
      ≡ record { buffer = last max_entries (old ++ events_from n es); seq = n + length es }
unfolding record_all events_from record_event
ring_from [] old n = let z : n + 0 ≡ n = omega arith in rw (append-nil, z)
ring_from (e ∷ es) old n =
    let event = event_of (n + 1) e in
    let next : n + 1 + length es ≡ n + suc (length es) = omega arith in
    rw (push-last, ← next) (ring_from es (old ++ event ∷ []) (n + 1) ∙ rw append_assoc)

-- After any calls of `record_event` on the empty ring, the buffer holds the last 500 of all events
-- in their order, numbered from 1 in the order of the calls.
pub record_all-last :
    (es : List Entry)
    → record_all es (record { buffer = []; seq = 0 })
      ≡ record { buffer = last max_entries (events_from 0 es); seq = length es }
record_all-last es =
    ring_from es [] 0
    ∙ ap (λ n. record { buffer = last max_entries (events_from 0 es); seq = n }) (omega arith)

private_event :
    (p : Text) (e : Event) → visible p e ≡ true → (e.project_id ≡ none) ⊎ (e.project_id ≡ some p)
unfolding visible
private_event p e h = elim (Option-cases e.project_id) [
  | inl n ↦ inl n
  | inr (q, there) ↦
      let same : text_eq q p ≡ true = ground arith in inr (there ∙ ap some (text_eq_sound q p same))
]

All-take : (P : Event → Type 0) (n : ℕ) (xs : List Event) → All P xs → All P (take n xs)
All-take P zero xs h = tt
All-take P (suc n) [] h = tt
All-take P (suc n) (x ∷ xs) h = (h.0, All-take P n xs h.1)

All-limited :
    (P : Event → Type 0) (limit : Option ℕ) (xs : List Event) → All P xs → All P (limited limit xs)
All-limited P none xs h = h
All-limited P (some n) xs h = All-take P n xs h

-- Asked for a project, `get_logs` returns only events of that project and events of none.
get_logs_private :
    (limit : Option ℕ) (c : ℕ) (s : Text) (r : Ring)
    → All
        (λ e. (e.project_id ≡ none) ⊎ (e.project_id ≡ some (c ∷ s)))
        (get_logs limit (some (c ∷ s)) r)
unfolding get_logs
get_logs_private limit c s r =
    let filtered = keep (visible (c ∷ s)) (reverse r.buffer) in
    All-limited _ limit filtered (
      All-map _ _ filtered (private_event (c ∷ s))
        (All-keep_self (visible (c ∷ s)) (reverse r.buffer)))
