-- ===== src/Websocket.antt =====
-- The connection manager of src/flowmesh/api/websocket.py. A connection is a number, its identity. What
-- comes of each sending is the environment's, and so is what other coroutines do to the list of
-- connections while `broadcast` waits for one: a turn of the loop has both.
pub mod Broadcast
use fuzzy_octo_train.Prelude.{
  nat_eq, ℕ, zero, suc, Bool, Option, none, some, List, [], ◌∷◌, ◌++◌, contains, length,
  if◌then◌else◌,
}
use fuzzy_octo_train.Events.{remove, get_elem?}

unfoldable pub connect : List ℕ → ℕ → List ℕ
connect connections ws = connections ++ ws ∷ []

unfoldable pub disconnect : List ℕ → ℕ → List ℕ
disconnect connections ws = if contains connections ws then remove connections ws else connections

abbrev pub active_connections : List ℕ → ℕ
active_connections connections = length connections

pub data Change : Type 0 where
  connects : (ws : ℕ) → Change
  disconnects : (ws : ℕ) → Change

unfoldable pub change_all : List ℕ → List Change → List ℕ
unfolding connect disconnect
change_all connections [] = connections
change_all connections (connects ws ∷ changes) = change_all (connect connections ws) changes
change_all connections (disconnects ws ∷ changes) = change_all (disconnect connections ws) changes

-- What the body of the `try` comes to, and what happens meanwhile.
pub data Turn : Type 0 where
  -- it is not connected, so nothing is sent, and nothing else runs
  skipped : Turn
  sent : (meanwhile : List Change) → Turn
  -- WebSocketDisconnect or RuntimeError
  failed : (meanwhile : List Change) → Turn
  -- an exception that `broadcast` does not catch
  broken : (meanwhile : List Change) → Turn

-- Where `broadcast` stands, with the connections there are: in the loop still, when its turns run out.
pub data Sending : Type 0 where
  in_loop : (connections : List ℕ) → Sending
  raised : (connections : List ℕ) → Sending
  returned : (connections : List ℕ) → Sending

unfoldable pub disconnect_all : List ℕ → List ℕ → List ℕ
unfolding disconnect
disconnect_all connections [] = connections
disconnect_all connections (ws ∷ stale) = disconnect_all (disconnect connections ws) stale

-- The loop, at the idx-th entry of the list as it is, and with the stale connections so far.
unfoldable pub send_all : List Turn → (idx : ℕ) → (connections stale : List ℕ) → Sending
unfolding change_all disconnect_all
send_all [] idx connections stale = elim (get_elem? connections idx) [
  | none ↦ returned (disconnect_all connections stale)
  | some ws ↦ in_loop connections
]
send_all (skipped ∷ turns) idx connections stale =
    let rest = send_all turns (suc idx) connections stale in
    elim (get_elem? connections idx) [
      | none ↦ returned (disconnect_all connections stale)
      | some ws ↦ rest
    ]
send_all (sent meanwhile ∷ turns) idx connections stale =
    let rest = send_all turns (suc idx) (change_all connections meanwhile) stale in
    elim (get_elem? connections idx) [
      | none ↦ returned (disconnect_all connections stale)
      | some ws ↦ rest
    ]
send_all (failed meanwhile ∷ turns) idx connections stale = elim (get_elem? connections idx) [
  | none ↦ returned (disconnect_all connections stale)
  | some ws ↦ send_all turns (suc idx) (change_all connections meanwhile) (stale ++ ws ∷ [])
]
send_all (broken meanwhile ∷ turns) idx connections stale = elim (get_elem? connections idx) [
  | none ↦ returned (disconnect_all connections stale)
  | some ws ↦ raised (change_all connections meanwhile)
]

unfoldable pub broadcast : List Turn → List ℕ → Sending
unfolding send_all
broadcast turns connections = send_all turns 0 connections []
