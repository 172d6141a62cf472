-- ===== src/Code.antt =====
-- pkg/code/code.go: the numbers of the replies.
use ops_system.Prelude.{ℕ}

abbrev pub success : ℕ
success = 0

abbrev pub server_error : ℕ
server_error = 10001

abbrev pub param_error : ℕ
param_error = 10002

abbrev pub database_error : ℕ
database_error = 10003

abbrev pub network_error : ℕ
network_error = 10004

abbrev pub method_not_allowed : ℕ
method_not_allowed = 10005

abbrev pub invalid_json : ℕ
invalid_json = 10006

abbrev pub node_offline : ℕ
node_offline = 20001

abbrev pub node_not_found : ℕ
node_not_found = 20002

abbrev pub node_register_failed : ℕ
node_register_failed = 20003

abbrev pub node_exec_failed : ℕ
node_exec_failed = 20004

abbrev pub instance_not_found : ℕ
instance_not_found = 30002

abbrev pub deploy_failed : ℕ
deploy_failed = 30003

abbrev pub action_failed : ℕ
action_failed = 30004

abbrev pub package_upload_failed : ℕ
package_upload_failed = 40001

abbrev pub package_not_found : ℕ
package_not_found = 40002

abbrev pub package_delete_failed : ℕ
package_delete_failed = 40005

abbrev pub alert_rule_error : ℕ
alert_rule_error = 50002
