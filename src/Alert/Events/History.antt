-- ===== src/Alert/Events/History.antt =====
-- Histories of AlertManager calls keep the table of events and the states in step.
use ops_system.Prelude.{
  ℕ, ◌+◌, String, ◌≡◌, ap, List, [], ◌∷◌, some, Bool, true, false, arith, leb, Option-cases,
  Bool-cases, inl, inr, All,
}
use ops_system.Assoc.{lookup}
use ops_system.Table.{find}
use ops_system.Float64.{Float64}
use ops_system.Protocol.{AlertRule, AlertEvent}
use ops_system.Node.{NodeManager}
use ops_system.Instance.{InstanceManager}
use ops_system.Alert.{
  AlertManager, AlertState, StateKey, key_eq, handle_state, stay_triggered, recover, resolve_alert,
  delete_event, clear_events, add_rule, delete_rule, new_alert_manager,
}
use ops_system.Alert.Debounce.{key_of}
use ops_system.Alert.Evaluate.{evaluate, keeps-evaluate}
use ops_system.Alert.Events.{IsConsistent, pend-IsConsistent, event_owner, find_event}
use ops_system.Alert.Events.Fire.{fire-IsConsistent}
use ops_system.Alert.Events.Resolve.{
  drop-IsConsistent, resolve-IsConsistent, delete_event-IsConsistent, clear_events-IsConsistent,
}

module _ (fixed1 : Float64 → String) (rule : AlertRule) (target_id target_name : String)
    (val : Float64) (now clock : ℕ) where
  stay_triggered-IsConsistent :
      (am : AlertManager) (st : AlertState)
      → IsConsistent am
      → lookup (key_of rule target_id) am.states ≡ some st
      → IsConsistent (stay_triggered fixed1 rule target_id target_name val now clock st am)
  unfolding stay_triggered
  stay_triggered-IsConsistent am st v at = elim (Bool-cases st.is_firing) [
    | inl lit ↦ rw lit v
    | inr idle ↦ rw idle (elim (Bool-cases (leb (st.first_trigger_time + rule.duration) now)) [
      | inl due ↦
          rw due (fire-IsConsistent fixed1 rule target_id target_name val clock am st v at idle)
      | inr early ↦ rw early v
    ])
  ]

  recover-IsConsistent :
      (am : AlertManager) (st : AlertState)
      → IsConsistent am
      → lookup (key_of rule target_id) am.states ≡ some st
      → IsConsistent (recover fixed1 (key_of rule target_id) clock st am)
  unfolding recover resolve_alert
  recover-IsConsistent am st v at = elim (Bool-cases st.is_firing) [
    | inl lit ↦ rw lit (resolve-IsConsistent am (key_of rule target_id) clock st v at lit)
    | inr idle ↦ rw idle (drop-IsConsistent am (key_of rule target_id) st v at idle)
  ]

  pub handle_state-IsConsistent :
      (triggered : Bool) (am : AlertManager)
      → IsConsistent am
      → IsConsistent (handle_state fixed1 rule target_id target_name val triggered now clock am)
  unfolding handle_state
  handle_state-IsConsistent triggered am v =
      elim (Option-cases (lookup (key_of rule target_id) am.states)) [
        | inl e ↦ ground (arith, e, pend-IsConsistent am (key_of rule target_id) now v e)
        | inr (st, e) ↦
            ground (arith, e, stay_triggered-IsConsistent am st v e, recover-IsConsistent am st v e)
      ]

pub data Call : Type 0 where
  evaluation : ℕ → (StateKey → ℕ) → Bool → Bool → ℕ → NodeManager → InstanceManager → Call
  adds : Bool → AlertRule → Call
  deletes : Bool → ℕ → Call
  forgets : Bool → ℕ → Call
  clears : Bool → Call

module _ (fixed1 : Float64 → String) where
  unfoldable pub call : Call → AlertManager → AlertManager
  call (evaluation now clock rules_fault nodes_fault node_now nm im) am =
      evaluate fixed1 now clock rules_fault nodes_fault node_now nm im am
  call (adds fault rule) am = (add_rule fault rule am).0
  call (deletes fault id) am = (delete_rule fault id am).0
  call (forgets fault id) am = (delete_event fault id am).0
  call (clears fault) am = (clear_events fault am).0

  unfoldable pub run : List Call → AlertManager → AlertManager
  unfolding call
  run [] am = am
  run (c ∷ cs) am = run cs (call c am)

  All-rules : (rules : List AlertRule) → All (λ (_ : AlertRule). Unit {0}) rules
  All-rules [] = tt
  All-rules (r ∷ rules) = (tt, All-rules rules)

  pub call-IsConsistent :
      (c : Call) (am : AlertManager) → IsConsistent am → IsConsistent (call c am)
  unfolding call add_rule delete_rule
  call-IsConsistent (evaluation now clock rules_fault nodes_fault node_now nm im) am v =
      keeps-evaluate fixed1 now clock (λ _. Unit {0}) IsConsistent
        (λ rule target_id target_name val triggered at am' _ v'.
          handle_state-IsConsistent fixed1 rule target_id target_name val now at triggered am' v')
        rules_fault nodes_fault node_now nm im am (All-rules am.rules) v
  call-IsConsistent (adds true rule) am v = v
  call-IsConsistent (adds false rule) am v = record {
    bounded = v.bounded;
    owned = v.owned;
    recorded = v.recorded;
  }
  call-IsConsistent (deletes fault id) am v = record {
    bounded = v.bounded;
    owned = v.owned;
    recorded = v.recorded;
  }
  call-IsConsistent (forgets fault id) am v = delete_event-IsConsistent fault id am v
  call-IsConsistent (clears fault) am v = clear_events-IsConsistent fault am v

  -- After any history of evaluations over any nodes and instances, of rules added and deleted and of
  -- events deleted, from a state that is consistent: each firing event belongs to exactly the firing
  -- state of its rule and target, each firing state's event is firing if it is still in the table,
  -- and new events get new ids.
  pub run-IsConsistent :
      (cs : List Call) (am : AlertManager) → IsConsistent am → IsConsistent (run cs am)
  unfolding run
  run-IsConsistent [] am v = v
  run-IsConsistent (c ∷ cs) am v = run-IsConsistent cs (call c am) (call-IsConsistent c am v)

-- In a consistent state no rule has two firing events for one target.
pub firing_event_unique :
    (am : AlertManager) (i j : ℕ) (ev ev' : AlertEvent)
    → IsConsistent am
    → find_event i am ≡ some ev
    → find_event j am ≡ some ev'
    → ev.status ≡ "firing"
    → ev'.status ≡ "firing"
    → event_owner ev ≡ event_owner ev'
    → i ≡ j
firing_event_unique am i j ev ev' v f g s s' same =
    let (st, at, _, id) = v.owned i ev f s in
    let (st', at', _, id') = v.owned j ev' g s' in ground (arith, ap (λ k. lookup k am.states) same)

-- The manager of a new installation is consistent.
pub new_alert_manager-IsConsistent :
    (rules : List AlertRule) (rule_seq event_seq : ℕ)
    → IsConsistent (new_alert_manager rules rule_seq [] event_seq)
unfolding new_alert_manager find lookup
new_alert_manager-IsConsistent rules rule_seq event_seq = record {
  bounded = λ i ev f. absurd (ground arith);
  owned = λ i ev f s. absurd (ground arith);
  recorded = λ k st e firing. absurd (ground arith);
}
