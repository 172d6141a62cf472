-- ===== src/Alert/Events.antt =====
-- The table of events against the states in memory: which state owns a firing event.
pub mod Fire
pub mod Resolve
pub mod History
use ops_system.Prelude.{
  ℕ, suc, ◌+◌, ◌≤◌, String, ◌≡◌, ◌≢◌, refl, sym, ◌∙◌, ap, List, [], ◌∷◌, ◌++◌, Option, none, some,
  Bool, true, false, arith, ◌==◌, nat_key, string_key, if◌then◌else◌, leb, eqb, eqb_iff,
  Option-cases, Bool-cases, inl, inr, eq_iff,
}
use ops_system.Assoc.{lookup, insert, erase, lookup-insert, lookup-insert_self, lookup-erase}
use ops_system.Table.{find, delete, update}
use ops_system.Table.Laws.{find-append_new, find-update, find-delete, find-key}
use ops_system.Float64.{Float64}
use ops_system.Protocol.{AlertRule, AlertEvent}
use ops_system.Alert.{
  AlertManager, AlertState, StateKey, key_eq, key_beq_iff, event_key, pending_at, handle_state,
  stay_triggered, recover, fire_alert, resolve_alert, resolved_event, new_event, delete_event,
  clear_events, add_rule, delete_rule,
}
use ops_system.Alert.Debounce.{key_of}
use mathlib.Core.Option

abbrev pub event_owner : AlertEvent → StateKey
event_owner e = record { rule_id = e.rule_id; target_id = e.target_id }

abbrev pub find_event : ℕ → AlertManager → Option AlertEvent
find_event i am = find event_key i am.events

pub record IsConsistent (am : AlertManager) : Type 0 where
  -- AUTOINCREMENT is ahead of every event.
  pub bounded : (i : ℕ) (ev : AlertEvent) → find_event i am ≡ some ev → i ≤ am.event_seq
  -- A firing event belongs to the firing state of its rule and target.
  pub owned :
      (i : ℕ) (ev : AlertEvent)
      → find_event i am ≡ some ev
      → ev.status ≡ "firing"
      → (st : AlertState) × (lookup (event_owner ev) am.states ≡ some st)
        × (st.is_firing ≡ true)
        × (st.event_id ≡ i)
  -- The event of a firing state, unless it was deleted, is firing and names the state's pair.
  pub recorded :
      (k : StateKey) (st : AlertState)
      → lookup k am.states ≡ some st
      → st.is_firing ≡ true
      → (st.event_id ≤ am.event_seq)
        × ((ev : AlertEvent)
            → find_event st.event_id am ≡ some ev
            → (ev.status ≡ "firing") × (event_owner ev ≡ k))

-- No event has an id that AUTOINCREMENT has not given out.
pub fresh_event : (am : AlertManager) → IsConsistent am → find_event (suc am.event_seq) am ≡ none
fresh_event am v = elim (Option-cases (find_event (suc am.event_seq) am)) [
  | inl e ↦ e
  | inr (ev, e) ↦ absurd (omega (arith, v.bounded (suc am.event_seq) ev e))
]

-- A key whose state is not firing owns no firing event.
pub not_owner :
    (am : AlertManager) (k : StateKey) (i : ℕ) (ev : AlertEvent)
    → IsConsistent am
    → ((st : AlertState) → lookup k am.states ≡ some st → st.is_firing ≡ true → st.event_id ≢ i)
    → find_event i am ≡ some ev
    → ev.status ≡ "firing"
    → (k == event_owner ev) ≡ false
not_owner am k i ev v h f s = elim (Bool-cases (k == event_owner ev)) [
  | inl same ↦
      let (st, at, firing, id) = v.owned i ev f s in
      absurd (
        h st (ap (λ j. lookup j am.states) ((key_beq_iff k (event_owner ev)).0 same) ∙ at) firing
          id)
  | inr other ↦ other
]

-- Entering the pending state.
pub pend-IsConsistent :
    (am : AlertManager) (k : StateKey) (now : ℕ)
    → IsConsistent am
    → lookup k am.states ≡ none
    → IsConsistent (record am { states = insert k (pending_at now) am.states })
pend-IsConsistent am k now v h = record {
  bounded = v.bounded;
  owned = λ i ev f s.
      let (st, at, firing, id) = v.owned i ev f s in
      let other = not_owner am k i ev v (λ st' e _ _. cc) f s in
      (st, rw (lookup-insert k (event_owner ev) (pending_at now) am.states, other) at, firing, id);
  recorded = λ j st e firing. elim (Bool-cases (k == j)) [
    | inl same ↦
        absurd (ground (arith, lookup-insert k j (pending_at now) am.states, same, e, firing))
    | inr other ↦
        v.recorded j st (ground (arith, lookup-insert k j (pending_at now) am.states, other, e))
          firing
  ];
}
