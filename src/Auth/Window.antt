-- ===== src/Auth/Window.antt =====
-- How many requests of a client go through in a minute.
use mathlib.Core.List.{append_assoc, append-nil}
use fuzzy_octo_train.Prelude.{
  string_eq, ℕ, ◌+◌, ◌≤◌, max, ◌&&◌, ◌∙◌, sym, subst, ap, ◌<◌, String, Bool, true, false, List, [],
  ◌∷◌, ◌++◌, ◌≡◌, count, filter, length, leb, ltb, arith, Bool-cases, inl, inr, refl, count-filter,
}
use fuzzy_octo_train.Auth.{RateLimit, no_requests, is_recent}
use fuzzy_octo_train.Auth.Effects.{
  kept, Visit, let_through, IsMonotone, after, same, cleaned, counted, same_limit, effect,
  is_counted,
}

-- Within the minute that begins at `start`.
abbrev pub in_minute : (start t : ℕ) → Bool
in_minute start t = leb start t && ltb t (start + 60000)

count-append : (p : ℕ → Bool) (xs ys : List ℕ) → count p (xs ++ ys) ≡ count p xs + count p ys
count-append p [] ys = omega arith
count-append p (x ∷ xs) ys = ground (arith, count-append p xs ys)

-- What is recent later is recent now.
count-recent_ones :
    (now later : ℕ) (xs : List ℕ)
    → now ≤ later
    → count (is_recent later) (filter (is_recent now) xs) ≡ count (is_recent later) xs
count-recent_ones now later [] h = refl
count-recent_ones now later (x ∷ xs) h = ground (arith, count-recent_ones now later xs h)

-- A minute that holds `now` holds recent times only.
minute-recent :
    (now start : ℕ) (xs : List ℕ)
    → in_minute start now ≡ true
    → count (in_minute start) xs ≤ count (is_recent now) xs
minute-recent now start [] h = omega arith
minute-recent now start (x ∷ xs) h = ground (arith, minute-recent now start xs h)

-- From `last` on, the times that are kept tell how many recent ones there were.
abbrev IsTracked : ℕ → List ℕ → List ℕ → Type 0
IsTracked last past now_kept =
    (now : ℕ) → last ≤ now → count (is_recent now) past ≡ count (is_recent now) now_kept

abbrev pub IsLimited : ℕ → List ℕ → Type 0
IsLimited limit times = (start : ℕ) → count (in_minute start) times ≤ max limit 1

-- One more request goes through.
IsLimited-once_more :
    (limit now : ℕ) (past now_kept : List ℕ)
    → IsLimited limit past
    → count (is_recent now) past ≡ count (is_recent now) now_kept
    → length (filter (is_recent now) now_kept) < max limit 1
    → IsLimited limit (past ++ now ∷ [])
IsLimited-once_more limit now past now_kept l t room start =
    elim (Bool-cases (in_minute start now)) [
      | inl inside ↦ ground (
        arith,
        count-append (in_minute start) past (now ∷ []),
        minute-recent now start past inside,
        count-filter (is_recent now) now_kept,
      )
      | inr outside ↦ ground (arith, count-append (in_minute start) past (now ∷ []), l start)
    ]

let_through-counted :
    (r : RateLimit) (v : Visit) (visits : List Visit) (ip : String)
    → is_counted ip v.request (after r v ip).0 ≡ true
    → let_through r (v ∷ visits) ip ≡ v.time ∷ let_through (after r v ip).1 visits ip
unfolding let_through
let_through-counted r v visits ip e = rw e refl

let_through-other :
    (r : RateLimit) (v : Visit) (visits : List Visit) (ip : String)
    → is_counted ip v.request (after r v ip).0 ≡ false
    → let_through r (v ∷ visits) ip ≡ let_through (after r v ip).1 visits ip
unfolding let_through
let_through-other r v visits ip e = rw e refl

-- Tracking goes on from a request at `now`.
IsTracked-same :
    (last now : ℕ) (past old new : List ℕ)
    → last ≤ now
    → IsTracked last past old
    → new ≡ old
    → IsTracked now past new
IsTracked-same last now past old new h t e m le =
    t m (omega arith) ∙ sym (ap (count (is_recent m)) e)

IsTracked-cleaned :
    (last now : ℕ) (past old new : List ℕ)
    → last ≤ now
    → IsTracked last past old
    → new ≡ filter (is_recent now) old
    → IsTracked now past new
IsTracked-cleaned last now past old new h t e m le =
    t m (omega arith) ∙ sym (count-recent_ones now m old le) ∙ sym (ap (count (is_recent m)) e)

IsTracked-counted :
    (last now : ℕ) (past old new : List ℕ)
    → last ≤ now
    → IsTracked last past old
    → new ≡ filter (is_recent now) old ++ now ∷ []
    → IsTracked now (past ++ now ∷ []) new
IsTracked-counted last now past old new h t e m le =
    let cleaned_up = count-recent_ones now m old le in
    let before = t m (omega arith) in
    omega (
      arith,
      count-append (is_recent m) past (now ∷ []),
      count-append (is_recent m) (filter (is_recent now) old) (now ∷ []),
      ap (count (is_recent m)) e,
    )

let_through_from :
    (r : RateLimit) (visits : List Visit) (ip : String) (limit last : ℕ) (past : List ℕ)
    → r.requests_per_minute ≡ limit
    → IsMonotone last visits
    → IsTracked last past (kept r.requests ip)
    → IsLimited limit past
    → IsLimited limit (past ++ let_through r visits ip)
let_through_from r [] ip limit last past e m t l =
    unfold let_through in subst (IsLimited limit) (sym (append-nil past)) l
let_through_from r (v ∷ visits) ip limit last past e m t l = elim (effect r v ip) [
  | same other k ↦ rw (let_through-other r v visits ip other) (
      let_through_from (after r v ip).1 visits ip limit v.time past (same_limit r v ip ∙ e) m.1
        (IsTracked-same last v.time past (kept r.requests ip) _ m.0 t k) l)
  | cleaned other k ↦ rw (let_through-other r v visits ip other) (
      let_through_from (after r v ip).1 visits ip limit v.time past (same_limit r v ip ∙ e) m.1
        (IsTracked-cleaned last v.time past (kept r.requests ip) _ m.0 t k) l)
  | counted through k room ↦ rw (let_through-counted r v visits ip through) (
      subst (IsLimited limit) (append_assoc past (v.time ∷ []) _) (
        let_through_from (after r v ip).1 visits ip limit v.time (past ++ v.time ∷ [])
          (same_limit r v ip ∙ e) m.1
          (IsTracked-counted last v.time past (kept r.requests ip) _ m.0 t k)
          (IsLimited-once_more limit v.time past (kept r.requests ip) l (t v.time m.0)
            (ground (arith, room, e)))))
]

-- With a clock that does not go back, of a new middleware's limited requests of one client at most
-- `requests_per_minute` go through in any minute, or one, if the limit is 0.
pub let_through-IsLimited :
    (limit : ℕ) (visits : List Visit) (ip : String)
    → IsMonotone 0 visits
    → IsLimited limit (let_through (no_requests limit) visits ip)
let_through-IsLimited limit visits ip m =
    let_through_from (no_requests limit) visits ip limit 0 [] refl m (λ now le. refl)
      (λ start. omega arith)
