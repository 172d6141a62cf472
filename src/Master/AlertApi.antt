-- ===== src/Master/AlertApi.antt =====
-- internal/master/api/alert_handler.go
use ops_system.Prelude.{ℕ, Option, none, some, Bool, if◌then◌else◌, not}
use ops_system.Protocol.{AlertRule}
use ops_system.Alert.{
  AlertManager, add_rule, delete_rule, get_rules, get_active_events, get_history_events,
  delete_event, clear_events,
}
use ops_system.Master.{
  ServerHandler, Reply, reply_success, reply_error, no_data, rules_data, alerts_data,
}
use ops_system.Code

unfoldable pub list_rules : Bool → ServerHandler → Reply
list_rules fault h = elim (get_rules fault h.alert_mgr) [
  | none ↦ reply_error Code.database_error
  | some rules ↦ reply_success (rules_data rules)
]

-- the end of the four handlers that change the manager
abbrev pub finish_alert : ℕ → AlertManager × Bool → ServerHandler → ServerHandler × Reply
finish_alert error (alerts, err) h =
    (record h { alert_mgr = alerts }, if err then reply_error error else reply_success no_data)

unfoldable pub post_rule : Bool → Bool → Option AlertRule → ServerHandler → ServerHandler × Reply
post_rule fault is_post request h =
    if not is_post then (h, reply_error Code.method_not_allowed) else elim request [
      | none ↦ (h, reply_error Code.invalid_json)
      | some rule ↦ finish_alert Code.alert_rule_error (add_rule fault rule h.alert_mgr) h
    ]

-- none is the error of ParseInt on the query's id
unfoldable pub remove_rule : Bool → Option ℕ → ServerHandler → ServerHandler × Reply
remove_rule fault id h = elim id [
  | none ↦ (h, reply_error Code.param_error)
  | some id ↦ finish_alert Code.alert_rule_error (delete_rule fault id h.alert_mgr) h
]

unfoldable pub get_alerts : Bool → Bool → ServerHandler → Reply
get_alerts active_fault history_fault h = elim (get_active_events active_fault h.alert_mgr) [
  | none ↦ reply_error Code.database_error
  | some active ↦ elim (get_history_events history_fault 50 h.alert_mgr) [
    | none ↦ reply_error Code.database_error
    | some history ↦ reply_success (alerts_data active history)
  ]
]

unfoldable pub remove_event : Bool → Bool → Option ℕ → ServerHandler → ServerHandler × Reply
remove_event fault is_post request h =
    if not is_post then (h, reply_error Code.method_not_allowed) else elim request [
      | none ↦ (h, reply_error Code.invalid_json)
      | some id ↦ finish_alert Code.database_error (delete_event fault id h.alert_mgr) h
    ]

unfoldable pub remove_events : Bool → Bool → ServerHandler → ServerHandler × Reply
remove_events fault is_post h =
    if not is_post
    then (h, reply_error Code.method_not_allowed)
    else finish_alert Code.database_error (clear_events fault h.alert_mgr) h
