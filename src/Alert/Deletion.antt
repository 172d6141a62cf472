-- ===== src/Alert/Deletion.antt =====
-- DeleteRule removes a rule and leaves its states and its firing events to no one.
use ops_system.Prelude.{
  ℕ, suc, ◌≤◌, String, ◌≡◌, ◌≢◌, refl, sym, ap, ◌∙◌, List, [], ◌∷◌, some, Bool, true, false, arith,
  eqb, nat_key, Option-cases, Bool-cases, inl, inr, All, All-append, All-keep, eqb_iff, keep,
}
use ops_system.Assoc.{lookup}
use ops_system.Table.{delete}
use ops_system.Table.Laws.{find-append_new, find-update}
use ops_system.Float64.{Float64}
use ops_system.Protocol.{AlertRule, AlertEvent}
use ops_system.Alert.{
  AlertManager, StateKey, key_eq, handle_state, stay_triggered, recover, fire_alert, resolve_alert,
  new_event, resolved_event, event_key, rule_key, add_rule, delete_rule,
}
use ops_system.Alert.Debounce.{key_of}
use ops_system.Alert.Evaluate.{keeps-evaluate}
use ops_system.Alert.Events.{IsConsistent, find_event, fresh_event}
use ops_system.Alert.Events.History.{
  Call, evaluation, adds, deletes, forgets, clears, call, run, handle_state-IsConsistent,
  call-IsConsistent,
}

module _ (fixed1 : Float64 → String) (rule : AlertRule) (target_id target_name : String)
    (val : Float64) (now clock : ℕ) (i : ℕ) (ev : AlertEvent) where
  -- An observation by another rule does not touch the event.
  find-handle_state_other :
      (triggered : Bool) (am : AlertManager)
      → IsConsistent am
      → rule.id ≢ ev.rule_id
      → find_event i am ≡ some ev
      → find_event i (handle_state fixed1 rule target_id target_name val triggered now clock am)
        ≡ some ev
  unfolding handle_state stay_triggered recover fire_alert resolve_alert
  find-handle_state_other triggered am v other f =
      let new : AlertEvent =
        new_event fixed1 rule target_id target_name val clock (suc am.event_seq) in
      let seen = find-append_new event_key new i am.events (fresh_event am v) in
      let low = v.bounded i ev f in
      elim (Option-cases (lookup (key_of rule target_id) am.states)) [
        | inl e ↦ ground (arith, e, f)
        | inr (st, e) ↦
            let mine : st.is_firing ≡ true → eqb st.event_id i ≡ false = λ lit.
              elim (Bool-cases (eqb st.event_id i)) [
                | inl same ↦
                    let at : find_event st.event_id am ≡ some ev = ground (arith, same, f) in
                    absurd (
                      other (
                        sym (ap (λ (k : StateKey). k.rule_id) ((v.recorded _ st e lit).1 ev at).1)))
                | inr apart ↦ apart
              ] in
            elim (Bool-cases st.is_firing) [
              | inl lit ↦ ground (
                arith,
                e,
                f,
                lit,
                mine lit,
                find-update event_key st.event_id i (resolved_event clock) am.events (λ x. refl),
              )
              | inr idle ↦ ground (arith, e, f, idle, seen, low)
            ]
      ]

  handle_state_rules :
      (triggered : Bool) (am : AlertManager)
      → ((handle_state fixed1 rule target_id target_name val triggered now clock am).rules
          ≡ am.rules)
        × ((handle_state fixed1 rule target_id target_name val triggered now clock am).rule_seq
            ≡ am.rule_seq)
  unfolding handle_state stay_triggered recover fire_alert resolve_alert
  handle_state_rules triggered am = ground arith

-- The rules have ids that AUTOINCREMENT gave out, and none has the id.
abbrev pub Lacks : ℕ → AlertManager → Type 0
Lacks id am =
    All (λ (r : AlertRule). (r.id ≢ id) × (r.id ≤ am.rule_seq)) am.rules × (id ≤ am.rule_seq)

-- An orphan: a firing event whose rule is gone.
pub record IsOrphan (i : ℕ) (ev : AlertEvent) (am : AlertManager) : Type 0 where
  pub consistent : IsConsistent am
  pub found : find_event i am ≡ some ev
  pub lacks : Lacks ev.rule_id am

abbrev pub IsRoutine : Call → Type 0
IsRoutine (forgets fault id) = ⊥
IsRoutine (clears fault) = ⊥
IsRoutine _ = Unit {0}

others :
    (id n : ℕ) (rules : List AlertRule)
    → All (λ (r : AlertRule). (r.id ≢ id) × (r.id ≤ n)) rules
    → All (λ (r : AlertRule). r.id ≢ id) rules
others id n [] a = tt
others id n (r ∷ rules) a = (a.0.0, others id n rules a.1)

raise :
    (id n m : ℕ) (rules : List AlertRule)
    → n ≤ m
    → All (λ (r : AlertRule). (r.id ≢ id) × (r.id ≤ n)) rules
    → All (λ (r : AlertRule). (r.id ≢ id) × (r.id ≤ m)) rules
raise id n m [] h a = tt
raise id n m (r ∷ rules) h a = ((a.0.0, omega arith), raise id n m rules h a.1)

module _ (fixed1 : Float64 → String) (i : ℕ) (ev : AlertEvent) where
  abbrev Kept : List AlertRule → ℕ → AlertManager → Type 0
  Kept rules n am =
      IsConsistent am × (find_event i am ≡ some ev) × (am.rules ≡ rules) × (am.rule_seq ≡ n)

  handle_state-Kept :
      (rules : List AlertRule) (n : ℕ) (rule : AlertRule) (target_id target_name : String)
      (val : Float64) (triggered : Bool) (now clock : ℕ) (am : AlertManager)
      → rule.id ≢ ev.rule_id
      → Kept rules n am
      → Kept rules n (handle_state fixed1 rule target_id target_name val triggered now clock am)
  handle_state-Kept rules n rule target_id target_name val triggered now clock am other
        (v, f, r, q) =
      let (rules_same, seq_same) =
        handle_state_rules fixed1 rule target_id target_name val now clock i ev triggered am in
      (
        handle_state-IsConsistent fixed1 rule target_id target_name val now clock triggered am v,
        find-handle_state_other fixed1 rule target_id target_name val now clock i ev triggered am v
            other f,
        rules_same ∙ r,
        seq_same ∙ q,
      )

  Lacks-keep :
      (id n : ℕ) (p : AlertRule → Bool) (rules : List AlertRule)
      → All (λ (r : AlertRule). (r.id ≢ id) × (r.id ≤ n)) rules
      → All (λ (r : AlertRule). (r.id ≢ id) × (r.id ≤ n)) (keep p rules)
  Lacks-keep id n p rules a = All-keep _ p rules a

  call-IsOrphan :
      (c : Call) (am : AlertManager)
      → IsRoutine c
      → IsOrphan i ev am
      → IsOrphan i ev (call fixed1 c am)
  unfolding call add_rule delete_rule delete
  call-IsOrphan (evaluation now clock rules_fault nodes_fault node_now nm im) am u o =
      let (v, f, r, q) =
        keeps-evaluate fixed1 now clock (λ rule. rule.id ≢ ev.rule_id) (Kept am.rules am.rule_seq)
          (λ rule target_id target_name val triggered at am' other k.
            handle_state-Kept am.rules am.rule_seq rule target_id target_name val triggered now at
              am' other k)
          rules_fault nodes_fault node_now nm im am
          (others ev.rule_id am.rule_seq am.rules o.lacks.0) (o.consistent, o.found, refl, refl) in
      record { consistent = v; found = f; lacks = rw (r, q) o.lacks }
  call-IsOrphan (adds true rule) am u o = o
  call-IsOrphan (adds false rule) am u o = record {
    consistent = call-IsConsistent fixed1 (adds false rule) am o.consistent;
    found = o.found;
    lacks = (
      All-append _ am.rules _
          (raise ev.rule_id am.rule_seq (suc am.rule_seq) am.rules (omega arith) o.lacks.0)
          ((omega (arith, o.lacks.1), omega arith), tt),
      omega (arith, o.lacks.1),
    );
  }
  call-IsOrphan (deletes true id) am u o = o
  call-IsOrphan (deletes false id) am u o = record {
    consistent = call-IsConsistent fixed1 (deletes false id) am o.consistent;
    found = o.found;
    lacks = (All-keep _ _ am.rules o.lacks.0, o.lacks.1);
  }
  call-IsOrphan (forgets fault id) am u o = absurd u
  call-IsOrphan (clears fault) am u o = absurd u

  -- An event whose rule is not among the rules stays in the table as it is, through every history of
  -- evaluations and of rules added and deleted, until it is deleted by hand: no evaluation resolves
  -- it.
  pub run-IsOrphan :
      (cs : List Call) (am : AlertManager)
      → All IsRoutine cs
      → IsOrphan i ev am
      → IsOrphan i ev (run fixed1 cs am)
  unfolding run
  run-IsOrphan [] am u o = o
  run-IsOrphan (c ∷ cs) am u o = run-IsOrphan cs (call fixed1 c am) u.1 (call-IsOrphan c am u.0 o)

deleted-Lacks :
    (id n : ℕ) (rules : List AlertRule)
    → All (λ (r : AlertRule). r.id ≤ n) rules
    → All (λ (r : AlertRule). (r.id ≢ id) × (r.id ≤ n)) (delete rule_key id rules)
unfolding delete
deleted-Lacks id n [] a = tt
deleted-Lacks id n (r ∷ rules) a = ground (arith, eqb_iff r.id id, deleted-Lacks id n rules a.1)

-- Deleting a rule while an alert of it is firing leaves the alert firing for ever: whatever
-- evaluations and changes of rules follow, the event is still in the table with the status "firing",
-- until it is deleted by hand.
pub delete_rule_orphans :
    (fixed1 : Float64 → String) (i : ℕ) (ev : AlertEvent) (am : AlertManager) (cs : List Call)
    → IsConsistent am
    → All (λ (r : AlertRule). r.id ≤ am.rule_seq) am.rules
    → ev.rule_id ≤ am.rule_seq
    → find_event i am ≡ some ev
    → ev.status ≡ "firing"
    → All IsRoutine cs
    → let after = run fixed1 cs (delete_rule false ev.rule_id am).0 in
      (find_event i after ≡ some ev) × (ev.status ≡ "firing")
unfolding delete_rule call
delete_rule_orphans fixed1 i ev am cs v numbered low f s routine = (
  (run-IsOrphan fixed1 i ev cs (delete_rule false ev.rule_id am).0 routine (record {
    consistent = call-IsConsistent fixed1 (deletes false ev.rule_id) am v;
    found = f;
    lacks = (deleted-Lacks ev.rule_id am.rule_seq am.rules numbered, low);
  })).found,
  s,
)
