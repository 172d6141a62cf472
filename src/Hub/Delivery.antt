-- ===== src/Hub/Delivery.antt =====
-- The two goroutines of the hub as one machine: its state is the hub and the messages that
-- throttlePush has taken and not yet written.
use ops_system.Prelude.{
  ℕ, ◌≡◌, ◌≢◌, refl, ap, List, [], ◌∷◌, Option, none, some, Bool, false, ◌&&◌, arith, ◌==◌, nat_key,
  eqb, eqb_iff, string_key, if◌then◌else◌, Bool-cases, inl, inr,
}
use ops_system.Assoc.{lookup, lookup-erase_ne}
use ops_system.Hub.{
  Hub, WsMessage, new_hub, receive, collect, disconnect, register, push_current_state, send_all,
  send_clients, broadcast_to_all,
}

-- `greeting` is the connection that Run has entered and not yet sent the current state.
pub record Pushing (D : Type 0) : Type 0 where
  pub hub : Hub D
  pub in_flight : List (WsMessage D)
  pub greeting : Option ℕ

pub data Event (D : Type 0) : Type 0 where
  joins leaves : ℕ → Event D
  updates : WsMessage D → Event D
  greets collects delivers : Event D

abbrev pub owes : Option ℕ → ℕ → Option ℕ
owes none conn = some conn
owes (some other) conn = some other

module _ {D : Type 0} where
  unfoldable pub start : Pushing D
  unfolding new_hub
  start = record { hub = new_hub; in_flight = []; greeting = none }

  -- throttlePush collects again only when it has written what it took.
  abbrev pub collect_next : List (WsMessage D) → Hub D → Hub D × List (WsMessage D)
  collect_next [] h = collect h
  collect_next (m ∷ ms) h = (h, m ∷ ms)

  -- Run takes the next case of its `select` only when it has greeted the last connection.
  abbrev pub if_idle : Option ℕ → Hub D → Hub D → Hub D
  if_idle none h next = next
  if_idle (some conn) h next = h

  module _ (fails : ℕ → WsMessage D → Bool) where
    abbrev pub greet : Option ℕ → Hub D → Hub D
    greet none h = h
    greet (some conn) h = push_current_state fails conn h

    unfoldable pub step : Event D → Pushing D → Pushing D
    step (joins conn) s = record s {
      hub = if_idle s.greeting s.hub (register conn s.hub);
      greeting = owes s.greeting conn;
    }
    step greets s = record s { hub = greet s.greeting s.hub; greeting = none }
    step (leaves conn) s = record s { hub = if_idle s.greeting s.hub (disconnect conn s.hub) }
    step (updates msg) s = record s { hub = if_idle s.greeting s.hub (receive msg s.hub) }
    step collects s = record s {
      hub = (collect_next s.in_flight s.hub).0;
      in_flight = (collect_next s.in_flight s.hub).1;
    }
    step delivers s = record s { hub = broadcast_to_all fails s.in_flight s.hub; in_flight = [] }

    unfoldable pub run : List (Event D) → Pushing D → Pushing D
    unfolding step
    run [] s = s
    run (e ∷ es) s = run es (step e s)

-- The payload of the last message of type "nodes" in a batch, and of the last that reached `c`.
module _ {D : Type 0} where
  abbrev pub or_else : Option D → Option D → Option D
  or_else none b = b
  or_else (some a) b = some a

  unfoldable pub last_nodes : List (WsMessage D) → Option D
  last_nodes [] = none
  last_nodes (m ∷ ms) = or_else (last_nodes ms) (if m.type == "nodes" then some m.payload else none)

  unfoldable pub seen : ℕ → List (ℕ × WsMessage D) → Option D
  seen c [] = none
  seen c ((conn, m) ∷ wire) =
      if eqb conn c && m.type == "nodes" then some m.payload else seen c wire

  module _ (fails : ℕ → WsMessage D → Bool) (c : ℕ)
      (healthy : (m : WsMessage D) → fails c m ≡ false) where
    send_all_self :
        (ms : List (WsMessage D)) (h : Hub D)
        → (seen c (send_all fails c ms h).wire ≡ or_else (last_nodes ms) (seen c h.wire))
          × ((send_all fails c ms h).clients ≡ h.clients)
    unfolding send_all last_nodes seen
    send_all_self [] h = (refl, refl)
    send_all_self (m ∷ ms) h =
        ground
          (arith, healthy m, eqb_iff c c, send_all_self ms (record h { wire = (c, m) ∷ h.wire }))

    send_all-other :
        (conn : ℕ) (ms : List (WsMessage D)) (h : Hub D)
        → conn ≢ c
        → (seen c (send_all fails conn ms h).wire ≡ seen c h.wire)
          × (lookup c (send_all fails conn ms h).clients ≡ lookup c h.clients)
    unfolding send_all seen
    send_all-other conn [] h other = (refl, refl)
    send_all-other conn (m ∷ ms) h other = ground (
      arith,
      eqb_iff conn c,
      lookup-erase_ne conn c h.clients other,
      send_all-other conn ms (record h { wire = (conn, m) ∷ h.wire }) other,
    )

    send_all-any :
        (conn : ℕ) (ms : List (WsMessage D)) (h : Hub D)
        → (seen c (send_all fails conn ms h).wire
            ≡ (if eqb conn c then or_else (last_nodes ms) (seen c h.wire) else seen c h.wire))
          × (lookup c (send_all fails conn ms h).clients ≡ lookup c h.clients)
    send_all-any conn ms h = elim (Bool-cases (eqb conn c)) [
      | inl same ↦
          let is : conn ≡ c = (eqb_iff conn c).0 same in
          let (sees, keeps) = send_all_self ms h in rw (same, is) (sees, ap (lookup c) keeps)
      | inr other ↦ rw other (send_all-other conn ms h (λ p. ground (arith, p, other)))
    ]

    or_else_twice : (a b : Option D) → or_else a (or_else a b) ≡ or_else a b
    or_else_twice none b = refl
    or_else_twice (some a) b = refl

    -- A healthy client stays, and sees the last message about nodes if it is among the connections.
    pub send_clients-healthy :
        (conns : List (ℕ × Bool)) (ms : List (WsMessage D)) (h : Hub D)
        → (seen c (send_clients fails conns ms h).wire ≡ elim (lookup c conns) [
          | none ↦ seen c h.wire
          | some _ ↦ or_else (last_nodes ms) (seen c h.wire)
        ])
          × (lookup c (send_clients fails conns ms h).clients ≡ lookup c h.clients)
    unfolding send_clients lookup
    send_clients-healthy [] ms h = (refl, refl)
    send_clients-healthy ((conn, b) ∷ conns) ms h = ground (
      arith,
      send_all-any conn ms h,
      or_else_twice (last_nodes ms) (seen c h.wire),
      send_clients-healthy conns ms (send_all fails conn ms h),
    )

  -- A push leaves the caches and their flags alone.
  send_all-caches :
      (fails : ℕ → WsMessage D → Bool) (conn : ℕ) (ms : List (WsMessage D)) (h : Hub D)
      → ((send_all fails conn ms h).latest_nodes ≡ h.latest_nodes)
        × ((send_all fails conn ms h).nodes_dirty ≡ h.nodes_dirty)
  unfolding send_all
  send_all-caches fails conn [] h = (refl, refl)
  send_all-caches fails conn (m ∷ ms) h =
      ground (arith, send_all-caches fails conn ms (record h { wire = (conn, m) ∷ h.wire }))

  pub send_clients-caches :
      (fails : ℕ → WsMessage D → Bool) (conns : List (ℕ × Bool)) (ms : List (WsMessage D))
      (h : Hub D)
      → ((send_clients fails conns ms h).latest_nodes ≡ h.latest_nodes)
        × ((send_clients fails conns ms h).nodes_dirty ≡ h.nodes_dirty)
  unfolding send_clients
  send_clients-caches fails [] ms h = (refl, refl)
  send_clients-caches fails ((conn, b) ∷ conns) ms h = ground (
    arith,
    send_all-caches fails conn ms h,
    send_clients-caches fails conns ms (send_all fails conn ms h),
  )
