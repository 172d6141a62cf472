-- ===== src/Master/Announced.antt =====
-- What the browsers are told of the systems: BroadcastSystems against the tables, for requests that
-- do not overlap. The handlers hold no lock between reading the view and sending it.
use ops_system.Prelude.{
  ℕ, String, ◌≡◌, List, [], ◌∷◌, Option, none, some, Bool, true, false, arith, keep, map, ◌==◌,
  string_key, Bool-cases, inl, inr,
}
use ops_system.Protocol.{
  RegisterRequest, SystemView, InstanceInfo, InstanceActionRequest, InstanceStatusReport, AlertRule,
}
use ops_system.Hub.{WsMessage}
use ops_system.Node.{
  NodeManager, NodeError, add_planned_node, delete_node, rename_node, reset_node_name,
}
use ops_system.System.{SystemManager, delete_system, add_module, delete_module}
use ops_system.Instance.{get_system_instances, load}
use ops_system.Master.{
  ServerHandler, Payload, systems_data, current_view, broadcast_update, broadcast_nodes,
}
use ops_system.Code
use ops_system.Master.InstanceApi.{
  DeployReq, RegExtReq, deploy_on, adopt_on, after_command, send_instance_command, deploy_instance,
  register_external, instance_action, worker_status_report,
}
use ops_system.Master.Batch.{SystemActionReq, send_batch, act_on_targets, system_action, is_target}
use ops_system.Master.NodeApi.{
  NamedNode, TriggerReq, Answer, unreachable, garbled, answered, receive_heartbeat, add_node,
  remove_node, change_name, reset_name, trigger_cmd, finish, conclude,
}
use ops_system.Master.SystemApi.{
  SystemReq, ModuleReq, post_system, remove_system, finish_module, post_module, remove_module,
}
use ops_system.Master.AlertApi.{post_rule, remove_rule, remove_event, remove_events}

-- the systems in a payload
unfoldable pub payload_systems : Payload → Option (List SystemView)
payload_systems (systems_data v) = some v
payload_systems other = none

-- The systems that the channel's latest message on them has; `before` if there is none.
unfoldable pub announced : List SystemView → List (WsMessage Payload) → List SystemView
announced before [] = before
announced before (m ∷ ms) =
    let older = announced before ms in
    elim (payload_systems m.payload) [ none ↦ older | some v ↦ v ]

abbrev pub IsAnnounced : List SystemView → ServerHandler → Type 0
IsAnnounced before h = announced before h.channel ≡ current_view h

-- A request to a handler that changes the state, with what the handler reads from outside.
pub data Call : Type 0 where
  deploying : Bool → Bool → Bool → Bool → String → String → Option String → Option DeployReq → Call
  adopting : Bool → Bool → Bool → Bool → String → String → Option RegExtReq → Call
  acting : Bool → Bool → Bool → Bool → String → Option InstanceActionRequest → Call
  reporting : Bool → Option InstanceStatusReport → Call
  batching :
      Bool → (InstanceInfo → Bool) → (InstanceInfo → Bool) → String → Option SystemActionReq → Call
  creating : Bool → String → ℕ → String → Option SystemReq → Call
  deleting : String → Option String → Call  -- with a commit that succeeds
  defining : Bool → String → String → Option ModuleReq → Call
  undefining : Bool → String → Option String → Call
  beating : Bool → Bool → Bool → ℕ → ℕ → ℕ → ℕ → Bool → String → Option RegisterRequest → Call
  planning : Bool → Bool → Bool → ℕ → String → Option NamedNode → Call
  dropping : Bool → Bool → Bool → ℕ → String → Option String → Call
  naming : Bool → Bool → ℕ → String → Option NamedNode → Call
  resetting : Bool → Bool → ℕ → String → Option String → Call
  commanding : Bool → String → Answer → Option TriggerReq → Call
  watching : Bool → Bool → Option AlertRule → Call
  unwatching : Bool → Option ℕ → Call
  forgetting : Bool → Bool → Option ℕ → Call
  clearing : Bool → Bool → Call

-- One request, handled to its end before another one begins.
unfoldable pub call : Call → ServerHandler → ServerHandler
call (deploying o f m p c n d b) h = (deploy_instance o f m p c n d b h).0
call (adopting o f m p c n b) h = (register_external o f m p c n b h).0
call (acting r o f p c b) h = (instance_action r o f p c b h).0
call (reporting f b) h = (worker_status_report f b h).0
call (batching f l r c b) h = (system_action f l r c b h).0
call (creating f i n c b) h = (post_system f i n c b h).0
call (deleting c b) h = (remove_system false c b h).0
call (defining f i c b) h = (post_module f i c b h).0
call (undefining f c b) h = (remove_module f c b h).0
call (beating q f l n1 n2 n3 n4 p r b) h = (receive_heartbeat q f l n1 n2 n3 n4 p r b h).0
call (planning q f l n c b) h = (add_node q f l n c b h).0
call (dropping q f l n c b) h = (remove_node q f l n c b h).0
call (naming f l n c b) h = (change_name f l n c b h).0
call (resetting f l n c b) h = (reset_name f l n c b h).0
call (commanding o c a b) h = (trigger_cmd o c a b h).0
call (watching f p b) h = (post_rule f p b h).0
call (unwatching f b) h = (remove_rule f b h).0
call (forgetting f p b) h = (remove_event f p b h).0
call (clearing f p) h = (remove_events f p h).0

unfoldable pub run : List Call → ServerHandler → ServerHandler
unfolding call
run [] h = h
run (c ∷ cs) h = run cs (call c h)

module _ (before : List SystemView) where
  deploy_instance-IsAnnounced :
      (o f m p : Bool) (c n : String) (d : Option String) (b : Option DeployReq) (h : ServerHandler)
      → IsAnnounced before h
      → IsAnnounced before (deploy_instance o f m p c n d b h).0
  unfolding deploy_instance deploy_on broadcast_update announced payload_systems
  deploy_instance-IsAnnounced o f m p c n d b h ok = ground arith

  register_external-IsAnnounced :
      (o f m p : Bool) (c n : String) (b : Option RegExtReq) (h : ServerHandler)
      → IsAnnounced before h
      → IsAnnounced before (register_external o f m p c n b h).0
  unfolding register_external adopt_on broadcast_update announced payload_systems
  register_external-IsAnnounced o f m p c n b h ok = ground arith

  instance_action-IsAnnounced :
      (r o f p : Bool) (c : String) (b : Option InstanceActionRequest) (h : ServerHandler)
      → IsAnnounced before h
      → IsAnnounced before (instance_action r o f p c b h).0
  unfolding instance_action after_command send_instance_command broadcast_update announced
      payload_systems
  instance_action-IsAnnounced r o f p c b h ok = ground arith

  worker_status_report-IsAnnounced :
      (f : Bool) (b : Option InstanceStatusReport) (h : ServerHandler)
      → IsAnnounced before h
      → IsAnnounced before (worker_status_report f b h).0
  unfolding worker_status_report broadcast_update announced payload_systems
  worker_status_report-IsAnnounced f b h ok = ground arith

  send_batch-IsAnnounced :
      (l r : InstanceInfo → Bool) (a : String) (is : List InstanceInfo) (h : ServerHandler)
      → IsAnnounced before h
      → IsAnnounced before (send_batch l r a is h).0
  unfolding send_batch send_instance_command
  send_batch-IsAnnounced l r a [] h ok = ok
  send_batch-IsAnnounced l r a (i ∷ is) h ok =
      send_batch-IsAnnounced l r a is (send_instance_command (l i) (r i) i a h).0
        (ground (arith, ok))

  act_on_targets-IsAnnounced :
      (l r : InstanceInfo → Bool) (c : String) (b : SystemActionReq) (is : List InstanceInfo)
      (h : ServerHandler)
      → IsAnnounced before h
      → IsAnnounced before (act_on_targets l r c b is h).0
  unfolding act_on_targets
  act_on_targets-IsAnnounced l r c b [] h ok = ok
  act_on_targets-IsAnnounced l r c b (i ∷ is) h ok =
      send_batch-IsAnnounced l r b.action (i ∷ is) h ok

  system_action-IsAnnounced :
      (f : Bool) (l r : InstanceInfo → Bool) (c : String) (b : Option SystemActionReq)
      (h : ServerHandler)
      → IsAnnounced before h
      → IsAnnounced before (system_action f l r c b h).0
  unfolding system_action get_system_instances
  system_action-IsAnnounced f l r c none h ok = ok
  system_action-IsAnnounced true l r c (some b) h ok = ok
  system_action-IsAnnounced false l r c (some b) h ok =
      act_on_targets-IsAnnounced l r c b
        (keep (is_target b.action)
          (map (load h.inst_mgr) (keep (λ i. i.system_id == b.system_id) h.inst_mgr.rows)))
        h ok

  finish-IsAnnounced :
      (l : Bool) (n e : ℕ) (c a ip : String) (r : NodeManager × Option NodeError)
      (h : ServerHandler)
      → IsAnnounced before h
      → IsAnnounced before (finish l n e c a ip r h).0
  unfolding finish broadcast_nodes announced payload_systems
  finish-IsAnnounced l n e c a ip r h ok = ground arith

  finish_module-IsAnnounced :
      (f : Bool) (c a t : String) (r : SystemManager × Bool) (h : ServerHandler)
      → (r.1 ≡ true → r.0 ≡ h.sys_mgr)
      → IsAnnounced before h
      → IsAnnounced before (finish_module c a t r h).0
  unfolding finish_module broadcast_update announced payload_systems
  finish_module-IsAnnounced f c a t r h same ok = elim (Bool-cases r.1) [
    | inl failed ↦ ground (arith, same failed)
    | inr done ↦ ground arith
  ]

  -- Each handler that changes the systems, their modules or the instances tells the hub: if the
  -- latest message on the systems has the view of the tables, then also after the request,
  -- whatever the request is, which branch the handler takes and which statement SQLite refuses,
  -- but for the commit of DeleteSystem, which is taken to succeed.
  pub call-IsAnnounced :
      (c : Call) (h : ServerHandler) → IsAnnounced before h → IsAnnounced before (call c h)
  unfolding call receive_heartbeat broadcast_nodes broadcast_update announced payload_systems
      post_system remove_system add_node remove_node change_name reset_name trigger_cmd conclude
      post_module remove_module add_module delete_module post_rule remove_rule remove_event
      remove_events delete_system
  call-IsAnnounced (deploying o f m p c n d b) h ok =
      deploy_instance-IsAnnounced o f m p c n d b h ok
  call-IsAnnounced (adopting o f m p c n b) h ok = register_external-IsAnnounced o f m p c n b h ok
  call-IsAnnounced (acting r o f p c b) h ok = instance_action-IsAnnounced r o f p c b h ok
  call-IsAnnounced (reporting f b) h ok = worker_status_report-IsAnnounced f b h ok
  call-IsAnnounced (batching f l r c b) h ok = system_action-IsAnnounced f l r c b h ok
  call-IsAnnounced (creating f i n c b) h ok = ground arith
  call-IsAnnounced (deleting c b) h ok = ground arith
  call-IsAnnounced (defining f i c none) h ok = ok
  call-IsAnnounced (defining f i c (some b)) h ok =
      finish_module-IsAnnounced f c "add_module" b.module_name
        (add_module f i b.system_id b.module_name b.package_name b.package_version b.description
          h.sys_mgr)
        h (λ err. ground arith) ok
  call-IsAnnounced (undefining f c none) h ok = ok
  call-IsAnnounced (undefining f c (some b)) h ok =
      finish_module-IsAnnounced f c "delete_module" b (delete_module f b h.sys_mgr) h
        (λ err. ground arith) ok
  call-IsAnnounced (beating q f l n1 n2 n3 n4 p r b) h ok = ground arith
  call-IsAnnounced (planning q f l n c none) h ok = ok
  call-IsAnnounced (planning q f l n c (some b)) h ok =
      finish-IsAnnounced l n Code.node_register_failed c "add_node" b.ip
        (add_planned_node q f b.ip b.name h.node_mgr) h ok
  call-IsAnnounced (dropping q f l n c none) h ok = ok
  call-IsAnnounced (dropping q f l n c (some ip)) h ok =
      finish-IsAnnounced l n Code.database_error c "delete_node" ip (delete_node q f ip h.node_mgr)
        h ok
  call-IsAnnounced (naming f l n c none) h ok = ok
  call-IsAnnounced (naming f l n c (some b)) h ok =
      finish-IsAnnounced l n Code.database_error c "rename_node" b.ip
        (rename_node f b.ip b.name h.node_mgr) h ok
  call-IsAnnounced (resetting f l n c none) h ok = ok
  call-IsAnnounced (resetting f l n c (some ip)) h ok =
      finish-IsAnnounced l n Code.database_error c "reset_node_name" ip
        (reset_node_name f ip h.node_mgr) h ok
  call-IsAnnounced (commanding o c unreachable b) h ok = ground arith
  call-IsAnnounced (commanding o c garbled b) h ok = ground arith
  call-IsAnnounced (commanding o c (answered out err) b) h ok = ground arith
  call-IsAnnounced (watching f p b) h ok = ground arith
  call-IsAnnounced (unwatching f b) h ok = ground arith
  call-IsAnnounced (forgetting f p b) h ok = ground arith
  call-IsAnnounced (clearing f p) h ok = ground arith

  -- After any requests to the master that are handled one at a time, each to its end before the next
  -- one begins, the latest message on the systems that is in the hub's channel has the view of the
  -- tables as they are, if that held before the first. Commits of DeleteSystem are taken to succeed.
  -- (It says nothing of requests that overlap: of two handlers, the one that read the older view can
  -- send it last.)
  pub run-IsAnnounced :
      (cs : List Call) (h : ServerHandler) → IsAnnounced before h → IsAnnounced before (run cs h)
  unfolding run
  run-IsAnnounced [] h ok = ok
  run-IsAnnounced (c ∷ cs) h ok = run-IsAnnounced cs (call c h) (call-IsAnnounced c h ok)
