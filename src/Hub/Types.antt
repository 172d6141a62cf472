-- ===== src/Hub/Types.antt =====
-- What kinds of message the hub ever writes.
use ops_system.Prelude.{
  ℕ, ◌≡◌, ◌≢◌, refl, List, [], ◌∷◌, Option, none, some, Bool, arith, string_key, nat_key, eq_iff,
  ◌⊎◌, All, All-append,
}
use ops_system.Hub.{
  Hub, WsMessage, receive, collect, disconnect, register, push_current_state, send_all,
  send_clients, broadcast_to_all, alert_message, nodes_message, if_dirty,
}
use ops_system.Hub.Delivery.{
  Pushing, Event, joins, leaves, greets, greet, updates, collects, delivers, start, collect_next,
  step, run,
}

module _ {D : Type 0} where
  abbrev pub IsUpdate : WsMessage D → Type 0
  IsUpdate m = (m.type ≡ "nodes") ⊎ (m.type ≡ "systems")

  abbrev pub WroteUpdates : List (ℕ × WsMessage D) → Type 0
  WroteUpdates = All (λ (w : ℕ × WsMessage D). IsUpdate w.1)

  -- The message of BroadcastAlerts changes nothing in the hub.
  receive-alert : (d : D) (h : Hub D) → receive (alert_message d) h ≡ h
  unfolding receive
  receive-alert d h = refl

  collect_next-written :
      (ms : List (WsMessage D)) (h : Hub D)
      → WroteUpdates h.wire
      → WroteUpdates (collect_next ms h).0.wire
  unfolding collect
  collect_next-written [] h w = w
  collect_next-written (m ∷ ms) h w = w

  collect_next-taken :
      (ms : List (WsMessage D)) (h : Hub D) → All IsUpdate ms → All IsUpdate (collect_next ms h).1
  unfolding collect
  collect_next-taken [] h a =
      All-append IsUpdate (if_dirty h.nodes_dirty h.latest_nodes nodes_message) _ (ground arith)
        (ground arith)
  collect_next-taken (m ∷ ms) h a = a

  module _ (fails : ℕ → WsMessage D → Bool) where
    send_all-updates :
        (conn : ℕ) (ms : List (WsMessage D)) (h : Hub D)
        → All IsUpdate ms
        → WroteUpdates h.wire
        → WroteUpdates (send_all fails conn ms h).wire
    unfolding send_all
    send_all-updates conn [] h a w = w
    send_all-updates conn (m ∷ ms) h a w =
        ground
          (arith, send_all-updates conn ms (record h { wire = (conn, m) ∷ h.wire }) a.1 (a.0, w))

    send_clients-updates :
        (conns : List (ℕ × Bool)) (ms : List (WsMessage D)) (h : Hub D)
        → All IsUpdate ms
        → WroteUpdates h.wire
        → WroteUpdates (send_clients fails conns ms h).wire
    unfolding send_clients
    send_clients-updates [] ms h a w = w
    send_clients-updates ((conn, b) ∷ conns) ms h a w =
        send_clients-updates conns ms (send_all fails conn ms h) a (send_all-updates conn ms h a w)

    push-updates :
        (conn : ℕ) (h : Hub D)
        → WroteUpdates h.wire
        → WroteUpdates (push_current_state fails conn h).wire
    unfolding push_current_state
    push-updates conn h w = ground arith

    greet-written :
        (owed : Option ℕ) (h : Hub D) → WroteUpdates h.wire → WroteUpdates (greet fails owed h).wire
    greet-written none h w = w
    greet-written (some conn) h w = push-updates conn h w

    -- Everything written and everything in flight is about nodes or systems.
    pub record Updates (s : Pushing D) : Type 0 where
      pub written : WroteUpdates s.hub.wire
      pub taken : All IsUpdate s.in_flight

    step-Updates : (e : Event D) (s : Pushing D) → Updates s → Updates (step fails e s)
    unfolding step register disconnect receive collect broadcast_to_all
    step-Updates (joins conn) s u = ground arith
    step-Updates greets s u = record {
      written = greet-written s.greeting s.hub u.written;
      taken = u.taken;
    }
    step-Updates (leaves conn) s u = ground arith
    step-Updates (updates msg) s u = ground arith
    step-Updates collects s u = record {
      written = collect_next-written s.in_flight s.hub u.written;
      taken = collect_next-taken s.in_flight s.hub u.taken;
    }
    step-Updates delivers s u = record {
      written = send_clients-updates s.hub.clients s.in_flight s.hub u.taken u.written;
      taken = tt;
    }

    run-Updates : (es : List (Event D)) (s : Pushing D) → Updates s → Updates (run fails es s)
    unfolding run
    run-Updates [] s u = u
    run-Updates (e ∷ es) s u = run-Updates es (step fails e s) (step-Updates e s u)

    not_alert :
        (wire : List (ℕ × WsMessage D))
        → WroteUpdates wire
        → All (λ (w : ℕ × WsMessage D). w.1.type ≢ "alert") wire
    not_alert [] a = tt
    not_alert ((conn, m) ∷ wire) a = (
      λ e. ground (arith, a.0, e, eq_iff "nodes" "alert", eq_iff "systems" "alert"),
      not_alert wire a.1,
    )

    -- No alert ever reaches a browser: in every history of connections, updates and ticks, with any
    -- write errors, every message that is written is about nodes or systems, also where
    -- BroadcastAlerts put its messages into the channel.
    pub alerts_dropped :
        (es : List (Event D))
        → WroteUpdates (run fails es start).hub.wire
          × All (λ (w : ℕ × WsMessage D). w.1.type ≢ "alert") (run fails es start).hub.wire
    unfolding start
    alerts_dropped es =
        let u = run-Updates es start (record { written = tt; taken = tt }) in
        (u.written, not_alert (run fails es start).hub.wire u.written)
