-- ===== src/Alert.antt =====
-- internal/master/manager/alert_manager.go: rules, the table of alert events, and the state machine
-- that takes each (rule, target) through pending, firing and resolved. A method that changes the
-- state holds `mu` while it does, and is one step; evaluate reads the rules and the snapshots before it
-- takes `mu`, and is one step with what it read. `sent` is what went to the hub's channel, the latest first.
pub mod Evaluate
pub mod Debounce
pub mod Events
pub mod Deletion
use Prim.Native.String.{◌++◌ as append}
use ops_system.Prelude.{
  ℕ, suc, ◌+◌, ◌≡◌, ◌↔◌, String, List, [], ◌∷◌, ◌++◌, Option, none, some, Bool, true, false, not,
  ◌&&◌, ◌||◌, Key, ◌==◌, string_key, nat_key, eqb, eqb_iff, eq_iff, leb, if◌then◌else◌, arith, keep,
  take, map,
}
use ops_system.Assoc.{Assoc, lookup, insert, erase}
use ops_system.Table.{exec, find, delete, update, order_desc}
use ops_system.Float64.{Float64, float_zero, float_one, float_lt, float_gt}
use ops_system.Protocol.{AlertRule, AlertEvent}

pub record StateKey : Type 0 where
  pub rule_id : ℕ
  pub target_id : String

abbrev pub key_beq : StateKey → StateKey → Bool
key_beq a b = eqb a.rule_id b.rule_id && a.target_id == b.target_id

pub key_beq_iff : (a b : StateKey) → (key_beq a b ≡ true) ↔ (a ≡ b)
key_beq_iff a b = ground (arith, eqb_iff a.rule_id b.rule_id, eq_iff a.target_id b.target_id)

instance abbrev pub key_eq : Key StateKey
key_eq = record { matches = key_beq; matches_iff = key_beq_iff }

pub record AlertState : Type 0 where
  pub first_trigger_time : ℕ
  pub is_firing : Bool
  pub event_id : ℕ

-- what BroadcastAlerts is called with
pub data Notice : Type 0 where
  fire : String → String → Notice
  resolve : ℕ → Notice

pub record AlertManager : Type 0 where
  pub rules : List AlertRule
  pub rule_seq : ℕ  -- the last id that AUTOINCREMENT gave out
  pub events : List AlertEvent
  pub event_seq : ℕ
  pub states : Assoc StateKey AlertState
  pub sent : List Notice

abbrev pub rule_key : AlertRule → ℕ
rule_key r = r.id

abbrev pub event_key : AlertEvent → ℕ
event_key e = e.id

unfoldable pub new_alert_manager : List AlertRule → ℕ → List AlertEvent → ℕ → AlertManager
new_alert_manager rules rule_seq events event_seq = record {
  rules = rules;
  rule_seq = rule_seq;
  events = events;
  event_seq = event_seq;
  states = [];
  sent = [];
}

-- The results are the new state, and whether an error is returned.
unfoldable pub add_rule : Bool → AlertRule → AlertManager → AlertManager × Bool
add_rule fault r am = if fault then (am, true) else (
  record am {
    rules = am.rules ++ record r { id = suc am.rule_seq; enabled = true } ∷ [];
    rule_seq = suc am.rule_seq;
  },
  false,
)

unfoldable pub delete_rule : Bool → ℕ → AlertManager → AlertManager × Bool
delete_rule fault id am = (record am { rules = exec fault (delete rule_key id) am.rules }, fault)

-- none is the error of the query
unfoldable pub get_rules : Bool → AlertManager → Option (List AlertRule)
get_rules fault am = if fault then none else some am.rules

abbrev pub started : AlertEvent → ℕ
started e = e.start_time

-- The columns that each query leaves out keep Go's zero value.
abbrev pub scan_active : AlertEvent → AlertEvent
scan_active e = record e { rule_id = 0; status = "firing"; end_time = none }

abbrev pub scan_history : AlertEvent → AlertEvent
scan_history e = record e { rule_id = 0; target_id = ""; metric_val = float_zero }

unfoldable pub get_active_events : Bool → AlertManager → Option (List AlertEvent)
get_active_events fault am =
    if fault
    then none
    else some (map scan_active (order_desc started (keep (λ e. e.status == "firing") am.events) []))

unfoldable pub get_history_events : Bool → ℕ → AlertManager → Option (List AlertEvent)
get_history_events fault limit am =
    if fault then none else some (take limit (map scan_history (order_desc started am.events [])))

unfoldable pub delete_event : Bool → ℕ → AlertManager → AlertManager × Bool
delete_event fault id am =
    (record am { events = exec fault (delete event_key id) am.events }, fault)

unfoldable pub clear_events : Bool → AlertManager → AlertManager × Bool
clear_events fault am = (record am { events = exec fault (λ _. []) am.events }, fault)

-- the last part of checkCondition: a threshold on a value
unfoldable pub compare_value : AlertRule → Float64 → Float64 × Bool
compare_value rule current =
    if rule.condition == ">" && float_gt current rule.threshold
    then (current, true)
    else if rule.condition == "<" && float_lt current rule.threshold
    then (current, true)
    else (current, false)

-- the value that is compared: zero for a metric that is neither cpu nor mem
unfoldable pub current_value : AlertRule → Float64 → Float64 → Float64
current_value rule cpu mem =
    if rule.metric == "mem" then mem else if rule.metric == "cpu" then cpu else float_zero

unfoldable pub check_condition : AlertRule → String → Float64 → Float64 → Float64 × Bool
check_condition rule status cpu mem =
    if rule.metric == "status"
    then (if not (status == "online") && not (status == "running")
        then (float_one, true)
        else (float_zero, false))
    else compare_value rule (current_value rule cpu mem)

-- `fixed1` prints a float64 with one decimal, as the verb %.1f of fmt does.
module _ (fixed1 : Float64 → String) where
  abbrev pub alert_message : AlertRule → String → Float64 → String
  alert_message rule target_name val = append "[" (
      append rule.name (
        append "] " (
          append target_name (
            append " " (
              append rule.metric (
                append " " (
                  append (fixed1 val)
                    (append " (Threshold: " (append (fixed1 rule.threshold) ")")))))))))

  abbrev pub new_event : AlertRule → String → String → Float64 → ℕ → ℕ → AlertEvent
  new_event rule target_id target_name val clock id = record {
    id = id;
    rule_id = rule.id;
    rule_name = rule.name;
    target_type = rule.target_type;
    target_id = target_id;
    target_name = target_name;
    metric_val = val;
    message = alert_message rule target_name val;
    status = "firing";
    start_time = clock;
    end_time = none;
  }

  -- The id is the INSERT's, from AUTOINCREMENT; `clock` is time.Now() at the INSERT. The INSERT is
  -- taken to succeed: after a failure the source calls a method of a nil result.
  unfoldable pub fire_alert :
      AlertRule → String → String → Float64 → ℕ → AlertManager → AlertManager × ℕ
  fire_alert rule target_id target_name val clock am =
      let id = suc am.event_seq in
      (
        record am {
          events = am.events ++ new_event rule target_id target_name val clock id ∷ [];
          event_seq = id;
          sent = fire (alert_message rule target_name val) target_name ∷ am.sent;
        },
        id,
      )

abbrev pub resolved_event : ℕ → AlertEvent → AlertEvent
resolved_event clock e = record e { status = "resolved"; end_time = some clock }

-- The UPDATE is taken to succeed, like the INSERT above.
unfoldable pub resolve_alert : ℕ → ℕ → AlertManager → AlertManager
resolve_alert event_id clock am = record am {
  events = update event_key event_id (resolved_event clock) am.events;
  sent = resolve event_id ∷ am.sent;
}

abbrev pub pending_at : ℕ → AlertState
pending_at now = record { first_trigger_time = now; is_firing = false; event_id = 0 }

module _ (fixed1 : Float64 → String) where
  -- `triggered` and a state exists
  unfoldable pub stay_triggered :
      AlertRule → String → String → Float64 → ℕ → ℕ → AlertState → AlertManager → AlertManager
  stay_triggered rule target_id target_name val now clock state am =
      if state.is_firing
      then am
      else if leb (state.first_trigger_time + rule.duration) now
      then (let (fired, id) = fire_alert fixed1 rule target_id target_name val clock am in
          record fired {
            states =
                insert (record { rule_id = rule.id; target_id = target_id })
                  (record state { is_firing = true; event_id = id }) fired.states;
          })
      else am

  -- not `triggered` and a state exists
  unfoldable pub recover : StateKey → ℕ → AlertState → AlertManager → AlertManager
  recover key clock state am =
      let settled = if state.is_firing then resolve_alert state.event_id clock am else am in
      record settled { states = erase key settled.states }

  unfoldable pub handle_state :
      AlertRule → String → String → Float64 → Bool → ℕ → ℕ → AlertManager → AlertManager
  handle_state rule target_id target_name val triggered now clock am =
      let key : StateKey = record { rule_id = rule.id; target_id = target_id } in
      elim (lookup key am.states) [
        | none ↦
            if triggered then record am { states = insert key (pending_at now) am.states } else am
        | some state ↦
            if triggered
            then stay_triggered rule target_id target_name val now clock state am
            else recover key clock state am
      ]
