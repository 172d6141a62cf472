-- ===== src/Alert/Events/Resolve.antt =====
-- Leaving a state, and deleting events by hand, keep events and states in step.
use ops_system.Prelude.{
  ℕ, ◌≡◌, refl, sym, ◌∙◌, some, Bool, true, false, arith, ◌==◌, nat_key, string_key, if◌then◌else◌,
  eqb, Option-cases, Bool-cases, inl, inr, eq_iff,
}
use ops_system.Assoc.{lookup, erase, lookup-erase}
use ops_system.Table.{find, delete, update}
use ops_system.Table.Laws.{find-update, find-delete}
use ops_system.Protocol.{AlertEvent}
use ops_system.Alert.{
  AlertManager, AlertState, StateKey, key_eq, key_beq_iff, event_key, resolve_alert, resolved_event,
  delete_event, clear_events,
}
use ops_system.Alert.Events.{event_owner, find_event, IsConsistent, not_owner}
use mathlib.Core.Option

-- Leaving the pending state.
pub drop-IsConsistent :
    (am : AlertManager) (k : StateKey) (st : AlertState)
    → IsConsistent am
    → lookup k am.states ≡ some st
    → st.is_firing ≡ false
    → IsConsistent (record am { states = erase k am.states })
drop-IsConsistent am k st v at idle = record {
  bounded = v.bounded;
  owned = λ i ev f s.
      let (so, at', firing, id) = v.owned i ev f s in
      let apart = not_owner am k i ev v (λ st'' e g _. ground (arith, e, g, at, idle)) f s in
      (so, rw (lookup-erase k (event_owner ev) am.states, apart) at', firing, id);
  recorded = λ j sj e firing. elim (Bool-cases (k == j)) [
    | inl same ↦ absurd (ground (arith, lookup-erase k j am.states, same, e))
    | inr other ↦ v.recorded j sj (ground (arith, lookup-erase k j am.states, other, e)) firing
  ];
}

-- Leaving the firing state: the event of the state is resolved with it.
pub resolve-IsConsistent :
    (am : AlertManager) (k : StateKey) (clock : ℕ) (st : AlertState)
    → IsConsistent am
    → lookup k am.states ≡ some st
    → st.is_firing ≡ true
    → IsConsistent (record (resolve_alert st.event_id clock am) { states = erase k am.states })
unfolding resolve_alert
resolve-IsConsistent am k clock st v at lit =
    let changed : (i : ℕ)
        → find event_key i (update event_key st.event_id (resolved_event clock) am.events) ≡ (
            if eqb st.event_id i
            then Option.map (resolved_event clock) (find_event i am)
            else find_event i am) =
      λ i. find-update event_key st.event_id i (resolved_event clock) am.events (λ e. refl) in
    let shared_event : (j : StateKey) (sj : AlertState)
        → eqb st.event_id sj.event_id ≡ true
        → (k == j) ≡ false
        → lookup j am.states ≡ some sj
        → sj.is_firing ≡ true
        → (ev : AlertEvent)
        → find event_key sj.event_id (update event_key st.event_id (resolved_event clock) am.events)
          ≡ some ev
        → (ev.status ≡ "firing") × (event_owner ev ≡ j) =
      λ j sj shared other old firing ev f. elim (Option-cases (find_event sj.event_id am)) [
        | inl e ↦ absurd (ground (arith, changed sj.event_id, e, f))
        | inr (was, e) ↦
            let mine : find_event st.event_id am ≡ some was = ground (arith, shared, e) in
            let here : event_owner was ≡ k = ((v.recorded k st at lit).1 was mine).1 in
            let there : event_owner was ≡ j = ((v.recorded j sj old firing).1 was e).1 in
            let same : k ≡ j = sym here ∙ there in absurd (cc ((key_beq_iff k j).1 same))
      ] in
    record {
      bounded = λ i ev f. elim (Option-cases (find_event i am)) [
        | inl e ↦ absurd (ground (arith, changed i, e, f))
        | inr (old, e) ↦ v.bounded i old e
      ];
      owned = λ i ev f s. elim (Bool-cases (eqb st.event_id i)) [
        | inl same ↦ absurd (ground (arith, changed i, same, f, s, eq_iff "resolved" "firing"))
        | inr other ↦
            let old : find_event i am ≡ some ev = ground (arith, changed i, other, f) in
            let (so, at', firing, id) = v.owned i ev old s in
            let apart =
              not_owner am k i ev v (λ st'' e _ id'. ground (arith, e, at, id', other)) old s in
            (so, rw (lookup-erase k (event_owner ev) am.states, apart) at', firing, id)
      ];
      recorded = λ j sj e firing. elim (Bool-cases (k == j)) [
        | inl same ↦ absurd (ground (arith, lookup-erase k j am.states, same, e))
        | inr other ↦
            let old : lookup j am.states ≡ some sj =
              ground (arith, lookup-erase k j am.states, other, e) in
            let (le, record_of) = v.recorded j sj old firing in
            (
              le,
              λ ev f. elim (Bool-cases (eqb st.event_id sj.event_id)) [
                | inl shared ↦ shared_event j sj shared other old firing ev f
                | inr apart ↦ record_of ev (ground (arith, changed sj.event_id, apart, f))
              ],
            )
      ];
    }

-- Deleting an event from the table.
pub delete_event-IsConsistent :
    (fault : Bool) (id : ℕ) (am : AlertManager)
    → IsConsistent am
    → IsConsistent (delete_event fault id am).0
unfolding delete_event
delete_event-IsConsistent true id am v = record {
  bounded = v.bounded;
  owned = v.owned;
  recorded = v.recorded;
}
delete_event-IsConsistent false id am v =
    let still : (i : ℕ) (ev : AlertEvent)
        → find event_key i (delete event_key id am.events) ≡ some ev
        → find_event i am ≡ some ev =
      λ i ev f. ground (arith, find-delete event_key id i am.events, f) in
    record {
      bounded = λ i ev f. v.bounded i ev (still i ev f);
      owned = λ i ev f s. v.owned i ev (still i ev f) s;
      recorded = λ k st e firing.
          let (le, record_of) = v.recorded k st e firing in
          (le, λ ev f. record_of ev (still st.event_id ev f));
    }

-- Emptying the table.
pub clear_events-IsConsistent :
    (fault : Bool) (am : AlertManager) → IsConsistent am → IsConsistent (clear_events fault am).0
unfolding clear_events find
clear_events-IsConsistent true am v = record {
  bounded = v.bounded;
  owned = v.owned;
  recorded = v.recorded;
}
clear_events-IsConsistent false am v = record {
  bounded = λ i ev f. absurd (ground arith);
  owned = λ i ev f s. absurd (ground arith);
  recorded = λ k st e firing. ((v.recorded k st e firing).0, λ ev f. absurd (ground arith));
}
