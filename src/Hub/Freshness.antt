-- ===== src/Hub/Freshness.antt =====
-- A connection that can be written to misses no update: it has seen the latest nodes, or they are
-- still to come.
use ops_system.Prelude.{
  ℕ, ◌≡◌, ◌≢◌, refl, subst, List, [], ◌∷◌, Option, none, some, Bool, true, false, arith, string_key,
  nat_key, eqb, eqb_iff, eq_iff, if◌then◌else◌, ◌∙◌, Option-cases, inl, inr, ◌⊎◌,
}
use ops_system.Assoc.{lookup, lookup-insert, lookup-erase}
use ops_system.Hub.{
  Hub, WsMessage, new_hub, receive, collect, disconnect, register, push_current_state,
  broadcast_to_all, nodes_message, systems_message, write_latest,
}
use ops_system.Hub.Delivery.{
  Pushing, Event, greets, joins, leaves, updates, collects, delivers, start, collect_next, step,
  run, last_nodes, seen, or_else, send_clients-healthy, send_clients-caches,
}

module _ {D : Type 0} (fails : ℕ → WsMessage D → Bool) (c : ℕ)
    (healthy : (m : WsMessage D) → fails c m ≡ false) where
  -- The latest nodes are flagged, in flight, unknown, or what `c` has seen.
  pub record IsFresh (s : Pushing D) : Type 0 where
    pub flight :
        (last_nodes s.in_flight ≡ none)
        ⊎ (s.hub.nodes_dirty ≡ true)
        ⊎ (last_nodes s.in_flight ≡ s.hub.latest_nodes)
    pub sees :
        (lookup c s.hub.clients ≡ none)
        ⊎ (s.greeting ≡ some c)
        ⊎ (s.hub.latest_nodes ≡ none)
        ⊎ (s.hub.nodes_dirty ≡ true)
        ⊎ (last_nodes s.in_flight ≢ none)
        ⊎ (seen c s.hub.wire ≡ s.hub.latest_nodes)

  write_nodes-seen :
      (conn : ℕ) (latest : Option D) (wire : List (ℕ × WsMessage D))
      → seen c (write_latest fails conn latest nodes_message wire)
        ≡ (if eqb conn c then or_else latest (seen c wire) else seen c wire)
  unfolding seen
  write_nodes-seen conn none wire = ground arith
  write_nodes-seen conn (some d) wire = ground (arith, eqb_iff conn c, healthy (nodes_message d))

  write_systems-seen :
      (conn : ℕ) (latest : Option D) (wire : List (ℕ × WsMessage D))
      → seen c (write_latest fails conn latest systems_message wire) ≡ seen c wire
  unfolding seen
  write_systems-seen conn none wire = refl
  write_systems-seen conn (some d) wire = ground (arith, eq_iff "systems" "nodes")

  joins-IsFresh : (conn : ℕ) (s : Pushing D) → IsFresh s → IsFresh (step fails (joins conn) s)
  unfolding step register
  joins-IsFresh conn s f = ground (arith, eqb_iff conn c, lookup-insert conn c true s.hub.clients)

  greet-seen :
      (conn : ℕ) (h : Hub D)
      → seen c (push_current_state fails conn h).wire
        ≡ (if eqb conn c then or_else h.latest_nodes (seen c h.wire) else seen c h.wire)
  unfolding push_current_state
  greet-seen conn h =
      write_systems-seen conn h.latest_systems
        (write_latest fails conn h.latest_nodes nodes_message h.wire)
      ∙ write_nodes-seen conn h.latest_nodes h.wire

  greets-IsFresh : (s : Pushing D) → IsFresh s → IsFresh (step fails greets s)
  unfolding step push_current_state
  greets-IsFresh s f = elim (Option-cases s.greeting) [
    | inl e ↦ ground (arith, e)
    | inr (conn, e) ↦ ground (arith, e, greet-seen conn s.hub, eqb_iff conn c)
  ]

  leaves-IsFresh : (conn : ℕ) (s : Pushing D) → IsFresh s → IsFresh (step fails (leaves conn) s)
  unfolding step disconnect
  leaves-IsFresh conn s f = ground (arith, lookup-erase conn c s.hub.clients)

  updates-IsFresh :
      (msg : WsMessage D) (s : Pushing D) → IsFresh s → IsFresh (step fails (updates msg) s)
  unfolding step receive
  updates-IsFresh msg s f = ground arith

  abbrev after_collect : Pushing D → Pushing D
  after_collect s = record s {
    hub = (collect_next s.in_flight s.hub).0;
    in_flight = (collect_next s.in_flight s.hub).1;
  }

  collects-IsFresh : (s : Pushing D) → IsFresh s → IsFresh (after_collect s)
  unfolding collect last_nodes
  collects-IsFresh s f = ground (arith, eq_iff "systems" "nodes")

  nothing_last : last_nodes {D = D} [] ≡ none
  unfolding last_nodes
  nothing_last = refl

  delivers-IsFresh : (s : Pushing D) → IsFresh s → IsFresh (step fails delivers s)
  unfolding step broadcast_to_all
  delivers-IsFresh s f = ground (
    arith,
    nothing_last,
    send_clients-caches fails s.hub.clients s.in_flight s.hub,
    send_clients-healthy fails c healthy s.hub.clients s.in_flight s.hub,
  )

  step-IsFresh : (e : Event D) (s : Pushing D) → IsFresh s → IsFresh (step fails e s)
  unfolding step
  step-IsFresh (joins conn) s f = joins-IsFresh conn s f
  step-IsFresh (leaves conn) s f = leaves-IsFresh conn s f
  step-IsFresh (updates msg) s f = updates-IsFresh msg s f
  step-IsFresh greets s f = greets-IsFresh s f
  step-IsFresh collects s f = collects-IsFresh s f
  step-IsFresh delivers s f = delivers-IsFresh s f

  run-IsFresh : (es : List (Event D)) (s : Pushing D) → IsFresh s → IsFresh (run fails es s)
  unfolding run
  run-IsFresh [] s f = f
  run-IsFresh (e ∷ es) s f = run-IsFresh es (step fails e s) (step-IsFresh e s f)

  collects_lem : (s : Pushing D) → after_collect s ≡ step fails collects s
  unfolding step
  collects_lem s = refl

  start-IsFresh : IsFresh start
  unfolding start new_hub lookup last_nodes
  start-IsFresh = record { flight = inl refl; sees = inl refl }

  collected :
      (s : Pushing D)
      → s.in_flight ≡ []
      → s.hub.latest_nodes ≢ none
      → ((after_collect s).hub.nodes_dirty ≡ false)
        × ((after_collect s).hub.latest_nodes ≡ s.hub.latest_nodes)
        × ((after_collect s).hub.clients ≡ s.hub.clients)
  unfolding collect
  collected s e known = ground (arith, e)

  delivered :
      (s : Pushing D)
      → ((step fails delivers s).hub.nodes_dirty ≡ s.hub.nodes_dirty)
        × ((step fails delivers s).hub.latest_nodes ≡ s.hub.latest_nodes)
        × (lookup c (step fails delivers s).hub.clients ≡ lookup c s.hub.clients)
        × (last_nodes (step fails delivers s).in_flight ≡ none)
        × ((step fails delivers s).greeting ≡ s.greeting)
  unfolding step broadcast_to_all last_nodes
  delivered s =
      let (latest, dirty) = send_clients-caches fails s.hub.clients s.in_flight s.hub in
      (
        dirty,
        latest,
        (send_clients-healthy fails c healthy s.hub.clients s.in_flight s.hub).1,
        refl,
        refl,
      )

  tick-seen :
      (s : Pushing D)
      → IsFresh s
      → s.in_flight ≡ []
      → s.greeting ≢ some c
      → s.hub.latest_nodes ≢ none
      → lookup c s.hub.clients ≢ none
      → seen c (step fails delivers (after_collect s)).hub.wire ≡ s.hub.latest_nodes
  tick-seen s f idle greeted known joined =
      let s' : Pushing D = after_collect s in
      let f' : IsFresh (step fails delivers s') = delivers-IsFresh s' (collects-IsFresh s f) in
      ground (arith, collected s idle known, delivered s', f'.sees)

  -- No update about nodes is lost. After any history of connections, updates, ticks and write errors
  -- of other connections, a connected client whose writes succeed has seen the latest nodes, unless
  -- they are flagged for the next tick, a message about nodes is in flight, or the client is still
  -- to be sent the current state.
  pub no_lost_update :
      (es : List (Event D))
      → lookup c (run fails es start).hub.clients ≢ none
      → let s = run fails es start in
        (s.greeting ≡ some c)
        ⊎ (s.hub.latest_nodes ≡ none)
        ⊎ (s.hub.nodes_dirty ≡ true)
        ⊎ (last_nodes s.in_flight ≢ none)
        ⊎ (seen c s.hub.wire ≡ s.hub.latest_nodes)
  no_lost_update es joined = ground (arith, (run-IsFresh es start start-IsFresh).sees)

  -- A tick delivers: after any history that leaves nothing in flight, the two halves of a tick leave
  -- every connected client whose writes succeed, and that is not still to be sent the current state,
  -- with the latest nodes as the last that it saw.
  pub tick_delivers :
      (es : List (Event D))
      → (run fails es start).in_flight ≡ []
      → (run fails es start).greeting ≢ some c
      → (run fails es start).hub.latest_nodes ≢ none
      → lookup c (run fails es start).hub.clients ≢ none
      → let s = run fails es start in
        let after = step fails delivers (step fails collects s) in
        seen c after.hub.wire ≡ s.hub.latest_nodes
  tick_delivers es idle greeted known joined =
      let s : Pushing D = run fails es start in
      subst (λ s'. seen c (step fails delivers s').hub.wire ≡ s.hub.latest_nodes) (collects_lem s)
        (tick-seen s (run-IsFresh es start start-IsFresh) idle greeted known joined)
