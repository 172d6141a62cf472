-- ===== src/Alert/Events/Fire.antt =====
-- Entering the firing state keeps events and states in step.
use ops_system.Prelude.{
  ℕ, suc, String, ◌≡◌, refl, ◌∙◌, ap, [], ◌∷◌, ◌++◌, some, true, false, arith, ◌==◌, nat_key,
  string_key, if◌then◌else◌, eqb, Bool-cases, inl, inr,
}
use ops_system.Assoc.{lookup, insert, lookup-insert, lookup-insert_self}
use ops_system.Table.{find}
use ops_system.Table.Laws.{find-append_new}
use ops_system.Float64.{Float64}
use ops_system.Protocol.{AlertRule, AlertEvent}
use ops_system.Alert.{
  AlertManager, AlertState, StateKey, key_eq, key_beq_iff, event_key, fire_alert, new_event,
}
use ops_system.Alert.Debounce.{key_of}
use ops_system.Alert.Events.{event_owner, find_event, IsConsistent, fresh_event, not_owner}

-- Entering the firing state: the new event is last in the table, under a new id.
module _ (fixed1 : Float64 → String) (rule : AlertRule) (target_id target_name : String)
    (val : Float64) (clock : ℕ) where
  pub fire-IsConsistent :
      (am : AlertManager) (st : AlertState)
      → IsConsistent am
      → lookup (key_of rule target_id) am.states ≡ some st
      → st.is_firing ≡ false
      → let (fired, id) = fire_alert fixed1 rule target_id target_name val clock am in
        IsConsistent (record fired {
          states =
              insert
                (key_of rule target_id)
                (record st { is_firing = true; event_id = id })
                fired.states;
        })
  unfolding fire_alert
  fire-IsConsistent am st v at idle =
      let id : ℕ = suc am.event_seq in
      let k : StateKey = key_of rule target_id in
      let new : AlertEvent = new_event fixed1 rule target_id target_name val clock id in
      let st' : AlertState = record st { is_firing = true; event_id = id } in
      let found : (i : ℕ)
          → find event_key i (am.events ++ new ∷ [])
            ≡ (if eqb id i then some new else find event_key i am.events) =
        λ i. find-append_new event_key new i am.events (fresh_event am v) in
      record {
        bounded = λ i ev f. elim (Bool-cases (eqb id i)) [
          | inl same ↦ ground (arith, same)
          | inr other ↦ ground (arith, v.bounded i ev (ground (arith, found i, other, f)))
        ];
        owned = λ i ev f s. elim (Bool-cases (eqb id i)) [
          | inl same ↦
              let is_new : ev ≡ new = ground (arith, found i, same, f) in
              (
                st',
                ap (λ e. lookup (event_owner e) (insert k st' am.states)) is_new
                    ∙ lookup-insert_self k st' am.states,
                refl,
                ground (arith, same),
              )
          | inr other ↦
              let old : find_event i am ≡ some ev = ground (arith, found i, other, f) in
              let (so, at', firing, same_id) = v.owned i ev old s in
              let apart =
                not_owner am k i ev v (λ st'' e g _. ground (arith, e, g, at, idle)) old s in
              (so, rw (lookup-insert k (event_owner ev) st' am.states, apart) at', firing, same_id)
        ];
        recorded = λ j sj e firing. elim (Bool-cases (k == j)) [
          | inl same ↦
              let is_new : sj ≡ st' = ground (arith, lookup-insert k j st' am.states, same, e) in
              let same_id : sj.event_id ≡ id = ground (arith, is_new) in
              (
                omega arith,
                λ ev f.
                    let is : ev ≡ new = ground (arith, found sj.event_id, same_id, f) in
                    (
                      ap (λ (e : AlertEvent). e.status) is,
                      ap event_owner is ∙ (key_beq_iff k j).0 same,
                    ),
              )
          | inr other ↦
              let old : lookup j am.states ≡ some sj =
                ground (arith, lookup-insert k j st' am.states, other, e) in
              let (le, record_of) = v.recorded j sj old firing in
              (omega arith, λ ev f. record_of ev (ground (arith, found sj.event_id, le, f)))
        ];
      }
