-- ===== src/Hub.antt =====
-- internal/master/ws/hub.go: the hub that pushes updates to the browsers at most once a second.
-- Connections are numbers and `D` is the type of the payloads. Run and throttlePush are two
-- goroutines; each function below is one stretch under `mu`. `wire` is what reached the connections,
-- the latest first, and `fails c m` says that writing `m` to `c` is an error.
pub mod Delivery
pub mod Types
pub mod Freshness
use ops_system.Prelude.{
  ℕ, String, List, [], ◌∷◌, ◌++◌, Option, none, some, Bool, true, false, ◌&&◌, ◌==◌, nat_key,
  string_key, if◌then◌else◌,
}
use ops_system.Assoc.{Assoc, lookup, insert, erase}

pub record WsMessage (D : Type 0) : Type 0 where
  pub type : String
  pub payload : D

pub record Hub (D : Type 0) : Type 0 where
  pub clients : Assoc ℕ Bool
  pub latest_nodes : Option D
  pub latest_systems : Option D
  pub nodes_dirty : Bool
  pub systems_dirty : Bool
  pub wire : List (ℕ × WsMessage D)
  pub closed : List ℕ

module _ {D : Type 0} where
  unfoldable pub new_hub : Hub D
  new_hub = record {
    clients = [];
    latest_nodes = none;
    latest_systems = none;
    nodes_dirty = false;
    systems_dirty = false;
    wire = [];
    closed = [];
  }

  -- `case msg := <-h.broadcast`
  unfoldable pub receive : WsMessage D → Hub D → Hub D
  receive msg h =
      if msg.type == "nodes"
      then record h { latest_nodes = some msg.payload; nodes_dirty = true }
      else if msg.type == "systems"
      then record h { latest_systems = some msg.payload; systems_dirty = true }
      else h

  -- BroadcastNodes, BroadcastSystems and BroadcastAlerts put these into the channel.
  abbrev pub nodes_message : D → WsMessage D
  nodes_message d = record { type = "nodes"; payload = d }

  abbrev pub systems_message : D → WsMessage D
  systems_message d = record { type = "systems"; payload = d }

  abbrev pub alert_message : D → WsMessage D
  alert_message d = record { type = "alert"; payload = d }

  abbrev pub if_dirty : Bool → Option D → (D → WsMessage D) → List (WsMessage D)
  if_dirty false latest message = []
  if_dirty true none message = []
  if_dirty true (some d) message = message d ∷ []

  -- the flag after the test `dirty && latest != nil`
  abbrev pub still_dirty : Bool → Option D → Bool
  still_dirty dirty none = dirty
  still_dirty dirty (some d) = false

  -- the first half of a tick: the messages to push, and the flags reset
  unfoldable pub collect : Hub D → Hub D × List (WsMessage D)
  collect h = (
    record h {
      nodes_dirty = still_dirty h.nodes_dirty h.latest_nodes;
      systems_dirty = still_dirty h.systems_dirty h.latest_systems;
    },
    if_dirty h.nodes_dirty h.latest_nodes nodes_message
        ++ if_dirty h.systems_dirty h.latest_systems systems_message,
  )

  -- `case conn := <-h.register`, up to the unlock
  unfoldable pub register : ℕ → Hub D → Hub D
  register conn h = record h { clients = insert conn true h.clients }

  unfoldable pub disconnect : ℕ → Hub D → Hub D
  disconnect conn h = elim (lookup conn h.clients) [
    | none ↦ h
    | some _ ↦ record h { clients = erase conn h.clients; closed = conn ∷ h.closed }
  ]

module _ {D : Type 0} (fails : ℕ → WsMessage D → Bool) where
  -- conn.WriteJSON(m), its error dropped
  abbrev pub write_json : ℕ → WsMessage D → List (ℕ × WsMessage D) → List (ℕ × WsMessage D)
  write_json conn m wire = if fails conn m then wire else (conn, m) ∷ wire

  abbrev pub write_latest :
      ℕ → Option D → (D → WsMessage D) → List (ℕ × WsMessage D) → List (ℕ × WsMessage D)
  write_latest conn none message wire = wire
  write_latest conn (some d) message wire = write_json conn (message d) wire

  unfoldable pub push_current_state : ℕ → Hub D → Hub D
  push_current_state conn h = record h {
    wire =
        write_latest conn h.latest_systems systems_message
          (write_latest conn h.latest_nodes nodes_message h.wire);
  }

  -- the loop over the messages for one client; an error closes it and breaks
  unfoldable pub send_all : ℕ → List (WsMessage D) → Hub D → Hub D
  send_all conn [] h = h
  send_all conn (m ∷ ms) h =
      let rest = send_all conn ms (record h { wire = (conn, m) ∷ h.wire }) in
      if fails conn m
      then record h { clients = erase conn h.clients; closed = conn ∷ h.closed }
      else rest

  -- the loop over the clients
  unfoldable pub send_clients : List (ℕ × Bool) → List (WsMessage D) → Hub D → Hub D
  unfolding send_all
  send_clients [] ms h = h
  send_clients ((conn, _) ∷ conns) ms h = send_clients conns ms (send_all conn ms h)

  -- the second half of a tick
  unfoldable pub broadcast_to_all : List (WsMessage D) → Hub D → Hub D
  unfolding send_clients
  broadcast_to_all ms h = send_clients h.clients ms h
