-- ===== src/Websocket/Broadcast.antt =====
-- What `ConnectionManager.broadcast` leaves.
use fuzzy_octo_train.Prelude.{
  nat_eq, ℕ, zero, suc, ◌-◌, Bool, true, false, none, some, List, [], ◌∷◌, ◌++◌, contains, drop,
  length, any, all, count, ◌≡◌, ◌==◌, ◌⊎◌, refl, sym, ◌∙◌, ap, subst, arith, if◌then◌else◌,
  Bool-cases, inl, inr,
}
use fuzzy_octo_train.Events.{remove, get_elem?}
use fuzzy_octo_train.Events.Delivery.{remove-count}
use fuzzy_octo_train.Websocket.{
  Change, Turn, skipped, sent, failed, broken, Sending, raised, returned, disconnect,
  disconnect_all, send_all, broadcast,
}

abbrev pub is_empty : List Change → Bool
is_empty [] = true
is_empty (change ∷ changes) = false

-- No other coroutine changes the connections in this turn.
abbrev pub is_quiet : Turn → Bool
is_quiet skipped = true
is_quiet (sent meanwhile) = is_empty meanwhile
is_quiet (failed meanwhile) = is_empty meanwhile
is_quiet (broken meanwhile) = is_empty meanwhile

abbrev pub is_broken : Turn → Bool
is_broken (broken meanwhile) = true
is_broken _ = false

-- The connections whose turns have failed, of a turn for each.
abbrev pub failed_of : List Turn → List ℕ → List ℕ
failed_of [] connections = []
failed_of (turn ∷ turns) [] = []
failed_of (failed meanwhile ∷ turns) (ws ∷ connections) = ws ∷ failed_of turns connections
failed_of (_ ∷ turns) (ws ∷ connections) = failed_of turns connections

remove-absent : (xs : List ℕ) (ws : ℕ) → contains xs ws ≡ false → remove xs ws ≡ xs
unfolding remove
remove-absent [] ws h = refl
remove-absent (x ∷ xs) ws h = ground (arith, remove-absent xs ws)

append_snoc : (xs ys : List ℕ) (x : ℕ) → (xs ++ x ∷ []) ++ ys ≡ xs ++ x ∷ ys
append_snoc [] ys x = refl
append_snoc (y ∷ xs) ys x = ap (◌∷◌ y) (append_snoc xs ys x)

append_nil : (xs : List ℕ) → xs ++ [] ≡ xs
append_nil [] = refl
append_nil (x ∷ xs) = ap (◌∷◌ x) (append_nil xs)

count-disconnect :
    (connections : List ℕ) (ws a : ℕ)
    → count (λ x. x == a) (disconnect connections ws)
      ≡ count (λ x. x == a) connections - (if ws == a then 1 else 0)
unfolding disconnect
count-disconnect connections ws a = elim (Bool-cases (contains connections ws)) [
  | inl there ↦ rw (disconnect, there) (remove-count connections ws a)
  | inr missing ↦
      rw (disconnect, missing)
        (ap (count (λ x. x == a)) (sym (remove-absent connections ws missing))
          ∙ remove-count connections ws a)
]

count-disconnect_all :
    (connections stale : List ℕ) (a : ℕ)
    → count (λ x. x == a) (disconnect_all connections stale)
      ≡ count (λ x. x == a) connections - count (λ x. x == a) stale
unfolding disconnect_all
count-disconnect_all connections [] a = omega arith
count-disconnect_all connections (ws ∷ stale) a = ground (
  arith,
  count-disconnect_all (disconnect connections ws) stale a,
  count-disconnect connections ws a,
)

get_elem?-drop :
    (xs : List ℕ) (idx : ℕ) {x : ℕ} {rest : List ℕ}
    → drop idx xs ≡ x ∷ rest
    → (get_elem? xs idx ≡ some x) × (drop (suc idx) xs ≡ rest)
get_elem?-drop [] zero e = absurd (cc)
get_elem?-drop [] (suc idx) e = absurd (cc)
get_elem?-drop (y ∷ xs) zero e = (cc, cc)
get_elem?-drop (y ∷ xs) (suc idx) e = get_elem?-drop xs idx e

get_elem?-end : (xs : List ℕ) (idx : ℕ) → drop idx xs ≡ [] → get_elem? xs idx ≡ none
get_elem?-end [] idx e = refl
get_elem?-end (y ∷ xs) zero e = absurd (cc)
get_elem?-end (y ∷ xs) (suc idx) e = get_elem?-end xs idx e

module _ (connections : List ℕ) where
  -- How the loop is to end.
  abbrev Ends : List Turn → (rest stale : List ℕ) → Sending → Type 0
  Ends turns rest stale end =
      ((any is_broken turns ≡ true) × (end ≡ raised connections))
      ⊎ ((any is_broken turns ≡ false)
          × (end ≡ returned (disconnect_all connections (stale ++ failed_of turns rest))))

  send_all-Ends :
      (turns : List Turn) (rest : List ℕ) (idx : ℕ) (stale : List ℕ)
      → drop idx connections ≡ rest
      → length turns ≡ length rest
      → all is_quiet turns ≡ true
      → Ends turns rest stale (send_all turns idx connections stale)
  unfolding send_all
  send_all-Ends [] [] idx stale e l q =
      inr (refl, rw (send_all, get_elem?-end connections idx e, append_nil stale) refl)
  send_all-Ends [] (x ∷ rest) idx stale e l q = absurd (omega (arith, l))
  send_all-Ends (turn ∷ turns) [] idx stale e l q = absurd (omega (arith, l))
  send_all-Ends (skipped ∷ turns) (x ∷ rest) idx stale e l q =
      let (here, later) = get_elem?-drop connections idx e in
      rw (send_all, here) (send_all-Ends turns rest (suc idx) stale later (omega (arith, l)) q)
  send_all-Ends (sent [] ∷ turns) (x ∷ rest) idx stale e l q =
      let (here, later) = get_elem?-drop connections idx e in
      rw (send_all, here) (send_all-Ends turns rest (suc idx) stale later (omega (arith, l)) q)
  send_all-Ends (failed [] ∷ turns) (x ∷ rest) idx stale e l q =
      let (here, later) = get_elem?-drop connections idx e in
      subst
        (λ gone.
          ((any is_broken turns ≡ true)
            × (send_all (failed [] ∷ turns) idx connections stale ≡ raised connections))
          ⊎ ((any is_broken turns ≡ false)
              × (send_all (failed [] ∷ turns) idx connections stale
                  ≡ returned (disconnect_all connections gone))))
        (append_snoc stale (failed_of turns rest) x)
        (rw (send_all, here)
          (send_all-Ends turns rest (suc idx) (stale ++ x ∷ []) later (omega (arith, l)) q))
  send_all-Ends (broken [] ∷ turns) (x ∷ rest) idx stale e l q =
      let (here, later) = get_elem?-drop connections idx e in inl (refl, rw (send_all, here) refl)
  send_all-Ends (sent (c ∷ cs) ∷ turns) (x ∷ rest) idx stale e l q = absurd (cc)
  send_all-Ends (failed (c ∷ cs) ∷ turns) (x ∷ rest) idx stale e l q = absurd (cc)
  send_all-Ends (broken (c ∷ cs) ∷ turns) (x ∷ rest) idx stale e l q = absurd (cc)

-- When the connections stay as they are while `broadcast` waits, one turn for each of them is enough. If
-- none raises what `broadcast` does not catch, it returns, and from each connection as many of its
-- entries are gone as its sendings have failed: of one that stands in the list twice and fails once, one
-- is left. Otherwise `broadcast` raises, and the connections are as they were.
pub broadcast_lem :
    (turns : List Turn) (connections : List ℕ) (ws : ℕ)
    → length turns ≡ length connections
    → all is_quiet turns ≡ true
    → ((any is_broken turns ≡ true) × (broadcast turns connections ≡ raised connections))
      ⊎ ((any is_broken turns ≡ false)
          × (left : List ℕ) × (broadcast turns connections ≡ returned left)
          × (count (λ x. x == ws) left
              ≡ count (λ x. x == ws) connections
                - count (λ x. x == ws) (failed_of turns connections)))
unfolding broadcast
broadcast_lem turns connections ws l q =
    elim (send_all-Ends connections turns connections 0 [] refl l q) [
      | inl (broke, e) ↦ inl (broke, e)
      | inr (whole, e) ↦ inr (
        whole,
        disconnect_all connections (failed_of turns connections),
        e,
        count-disconnect_all connections (failed_of turns connections) ws,
      )
    ]
