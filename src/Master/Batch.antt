-- ===== src/Master/Batch.antt =====
-- internal/master/api/instance_handler.go, SystemAction: a command for all instances of a system.
use ops_system.Prelude.{
  ℕ, suc, String, List, [], ◌∷◌, Option, none, some, Bool, true, false, ◌==◌, string_key,
  if◌then◌else◌, ◌&&◌, not, length, keep, ◌-◌,
}
use ops_system.Protocol.{InstanceInfo}
use ops_system.Instance.{get_system_instances}
use ops_system.Master.{
  ServerHandler, Reply, reply_success, reply_error, nothing_to_do, done_counts, record_log,
}
use ops_system.Master.InstanceApi.{send_instance_command}
use ops_system.Code
use Prim.Native.String.{◌++◌ as append}

-- the two branches that append to `targets`
abbrev pub is_target : String → InstanceInfo → Bool
is_target action inst =
    if action == "start" && not (inst.status == "running")
    then true
    else if action == "stop" && inst.status == "running"
    then true
    else false

pub record SystemActionReq : Type 0 where
  pub system_id : String
  pub action : String

-- errCount++
abbrev pub count_error : Bool → ℕ → ℕ
count_error err n = if err then suc n else n

-- The goroutines share only `errCount`; they run here in the order of the list. `lost i` says that
-- the node of the instance cannot be read, `refuses i` that PostJSON reports an error.
unfoldable pub send_batch :
    (InstanceInfo → Bool)
    → (InstanceInfo → Bool)
    → String
    → List InstanceInfo
    → ServerHandler
    → ServerHandler × ℕ
send_batch lost refuses action [] h = (h, 0)
send_batch lost refuses action (inst ∷ rest) h =
    let first = send_instance_command (lost inst) (refuses inst) inst action h in
    let others = send_batch lost refuses action rest first.0 in
    (others.0, count_error first.1 others.1)

unfoldable pub act_on_targets :
    (InstanceInfo → Bool)
    → (InstanceInfo → Bool)
    → String
    → SystemActionReq
    → List InstanceInfo
    → ServerHandler
    → ServerHandler × Reply
act_on_targets lost refuses client req [] h = (h, reply_success nothing_to_do)
act_on_targets lost refuses client req (t ∷ ts) h =
    let batch = send_batch lost refuses req.action (t ∷ ts) h in
    (
      record_log client (append "batch_" req.action) "system" req.system_id "success" batch.0,
      reply_success (done_counts (length (t ∷ ts) - batch.1) batch.1),
    )

unfoldable pub system_action :
    Bool
    → (InstanceInfo → Bool)
    → (InstanceInfo → Bool)
    → String
    → Option SystemActionReq
    → ServerHandler
    → ServerHandler × Reply
system_action fault lost refuses client body h = elim body [
  | none ↦ (h, reply_error Code.invalid_json)
  | some req ↦ elim (get_system_instances fault req.system_id h.inst_mgr) [
    | none ↦ (h, reply_error Code.database_error)
    | some instances ↦
        act_on_targets lost refuses client req (keep (is_target req.action) instances) h
  ]
]
