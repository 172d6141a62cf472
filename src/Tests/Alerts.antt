-- ===== src/Tests/Alerts.antt =====
-- The theorems on the alerts and the hub at concrete inputs.
use ops_system.Prelude.{
  ℕ, String, ◌≡◌, ◌≢◌, refl, List, [], ◌∷◌, none, some, Bool, true, false, arith, nat_key,
  string_key, All, ◌⊎◌,
}
use ops_system.Assoc.{lookup, insert}
use ops_system.Table.{find}
use ops_system.Float64.{Float64, float_zero, float_one}
use ops_system.Protocol.{AlertRule, AlertEvent}
use ops_system.Alert.{
  AlertManager, StateKey, key_eq, handle_state, delete_rule, new_alert_manager, new_event,
  stay_triggered, fire_alert,
}
use ops_system.Alert.Debounce.{key_of, Observation, Fits, replay, replay-Fits}
use ops_system.Alert.Events.{IsConsistent, find_event}
use ops_system.Alert.Events.History.{
  adds, deletes, run, run-IsConsistent, handle_state-IsConsistent, new_alert_manager-IsConsistent,
}
use ops_system.Alert.Deletion.{delete_rule_orphans}
use ops_system.Hub.{WsMessage, nodes_message, register, push_current_state, receive, new_hub}
use ops_system.Hub
use ops_system.Hub.Delivery.{
  Event, joins, greets, updates, collects, delivers, start, step, last_nodes, seen,
}
use ops_system.Hub.Delivery
use ops_system.Hub.Types.{WroteUpdates, alerts_dropped}
use ops_system.Hub.Freshness.{no_lost_update, tick_delivers}

abbrev one_decimal : Float64 → String
one_decimal _ = "1.0"

abbrev cpu_rule : AlertRule
cpu_rule = record {
  id = 1;
  name = "cpu high";
  target_type = "node";
  metric = "cpu";
  condition = ">";
  threshold = float_zero;
  duration = 60;
  enabled = true;
}

abbrev firing_event : AlertEvent
firing_event = new_event one_decimal cpu_rule "10.0.0.1" "host-a" float_one 70 1

abbrev quiet : AlertManager
quiet = new_alert_manager (cpu_rule ∷ []) 1 [] 0

abbrev observe_high : ℕ → AlertManager → AlertManager
observe_high now = handle_state one_decimal cpu_rule "10.0.0.1" "host-a" float_one true now now

-- the rule's duration has passed
abbrev firing : AlertManager
firing = observe_high 70 (observe_high 0 quiet)

firing-IsConsistent : IsConsistent firing
firing-IsConsistent =
    handle_state-IsConsistent one_decimal cpu_rule "10.0.0.1" "host-a" float_one 70 70 true
      (observe_high 0 quiet)
      (handle_state-IsConsistent one_decimal cpu_rule "10.0.0.1" "host-a" float_one 0 0 true quiet
        (new_alert_manager-IsConsistent (cpu_rule ∷ []) 1 0))

abbrev offline : String
offline = "offline"

abbrev other_key : StateKey
other_key = record { rule_id = 2; target_id = "10.0.0.1" }

abbrev observations : List Observation
observations =
    record { val = float_one; triggered = true; now = 70; clock = 70 }
    ∷ record { val = float_one; triggered = true; now = 10; clock = 10 }
    ∷ []

replay-Fits_example : Fits 60 (70 ∷ 10 ∷ []) (
    lookup
      (key_of cpu_rule "10.0.0.1")
      (replay one_decimal cpu_rule "10.0.0.1" "host-a" observations quiet).states)
unfolding lookup new_alert_manager
replay-Fits_example = replay-Fits one_decimal cpu_rule "10.0.0.1" "host-a" observations quiet refl

run-IsConsistent_example :
    IsConsistent (run one_decimal (adds false cpu_rule ∷ deletes false 1 ∷ []) firing)
run-IsConsistent_example =
    run-IsConsistent one_decimal (adds false cpu_rule ∷ deletes false 1 ∷ []) firing
      firing-IsConsistent

delete_rule_orphans_example :
    let after = run one_decimal (adds false cpu_rule ∷ []) (delete_rule false 1 firing).0 in
    (find_event 1 after ≡ some firing_event) × (firing_event.status ≡ "firing")
unfolding find lookup insert handle_state stay_triggered fire_alert new_alert_manager
delete_rule_orphans_example =
    delete_rule_orphans one_decimal 1 firing_event firing (adds false cpu_rule ∷ [])
      firing-IsConsistent (omega arith, tt) (omega arith) refl refl (tt, tt)

abbrev works : ℕ → WsMessage ℕ → Bool
works conn m = false

abbrev session : List (Event ℕ)
session = joins 1 ∷ greets ∷ updates (nodes_message 7) ∷ updates (Hub.alert_message 8) ∷ []

alerts_dropped_example :
    WroteUpdates (Delivery.run works session start).hub.wire
    × All (λ (w : ℕ × WsMessage ℕ). w.1.type ≢ "alert") (Delivery.run works session start).hub.wire
alerts_dropped_example = alerts_dropped works session

no_lost_update_example :
    let s = Delivery.run works session start in
    (s.greeting ≡ some 1)
    ⊎ (s.hub.latest_nodes ≡ none)
    ⊎ (s.hub.nodes_dirty ≡ true)
    ⊎ (last_nodes s.in_flight ≢ none)
    ⊎ (seen 1 s.hub.wire ≡ s.hub.latest_nodes)
unfolding Delivery.run step register push_current_state receive start new_hub lookup insert
no_lost_update_example = no_lost_update works 1 (λ m. refl) session (λ gone. ground (arith, gone))

tick_delivers_example :
    let s = Delivery.run works session start in
    let after = step works delivers (step works collects s) in
    seen 1 after.hub.wire ≡ s.hub.latest_nodes
unfolding Delivery.run step register push_current_state receive start new_hub lookup insert
tick_delivers_example =
    tick_delivers works 1 (λ m. refl) session refl (λ owed. ground (arith, owed))
      (λ unknown. ground (arith, unknown)) (λ gone. ground (arith, gone))
