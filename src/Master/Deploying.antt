-- ===== src/Master/Deploying.antt =====
-- What DeployInstance and RegisterExternal leave in the table of instances.
use ops_system.Prelude.{
  String, ◌≡◌, refl, ◌∷◌, none, some, Bool, true, false, arith, ◌==◌, string_key, if◌then◌else◌,
  ==_refl, eq_iff,
}
use Prim.Native.String.{◌++◌ as append}
use ops_system.Protocol.{InstanceInfo}
use ops_system.Assoc.{lookup}
use ops_system.Node.{get_node, NodeAddress}
use ops_system.Instance.{InstanceManager, get_instance, register_instance, update_instance_status}
use ops_system.Instance.Laws.{get_instance-register_instance, get_instance-update_instance_status}
use ops_system.Master.{ServerHandler, reply_success, reply_error, no_data, broadcast_update, deploy}
use ops_system.Master.InstanceApi.{DeployReq, new_instance, deploy_on, deploy_instance}
use ops_system.Code

-- The row that is stored, and marked where the worker cannot be reached.
abbrev placed : Bool → InstanceInfo → InstanceManager → InstanceManager
placed post_fails inst im =
    if post_fails
    then update_instance_status false 0 inst.id "error" 0 (register_instance false inst im)
    else register_instance false inst im

get_instance-placed :
    (post_fails : Bool) (id system_id node_ip service_name service_version status j : String)
    (im : InstanceManager)
    → lookup id im.metrics_cache ≡ none
    → let inst = new_instance id system_id node_ip service_name service_version status in
      get_instance false j (placed post_fails inst im) ≡ (
        if id == j
        then some (
            new_instance id system_id node_ip service_name service_version
              (if post_fails then "error" else status))
        else get_instance false j im)
get_instance-placed true id system_id node_ip service_name service_version status j im fresh =
    let inst = new_instance id system_id node_ip service_name service_version status in
    ground (
      arith,
      get_instance-update_instance_status 0 id "error" 0 j (register_instance false inst im),
      get_instance-register_instance inst j im,
      eq_iff id j,
      fresh,
    )
get_instance-placed false id system_id node_ip service_name service_version status j im fresh =
    let inst = new_instance id system_id node_ip service_name service_version status in
    ground (arith, get_instance-register_instance inst j im, eq_iff id j, fresh)

deploy_instance-known :
    (post_fails : Bool) (client nanos url : String) (req : DeployReq) (node : NodeAddress)
    (h : ServerHandler)
    → get_node false req.node_ip h.node_mgr ≡ some node
    → deploy_instance false false false post_fails client nanos (some url) (some req) h
      ≡ deploy_on false false post_fails client nanos url req node h
unfolding deploy_instance
deploy_instance-known post_fails client nanos url req node h found = rw (found, deploy_instance)

-- A deployment to a known node, with a package and no refused statement. The worker is asked once,
-- with the new id and the URL. If the request arrives, the instance reads as deploying and the
-- reply is a success; otherwise it reads as being in error, with no process, and the reply says
-- so. No metrics may be cached under the new id. Every other instance reads as before.
pub deploy_instance_lem :
    (post_fails : Bool) (client nanos url : String) (req : DeployReq) (node : NodeAddress)
    (h : ServerHandler)
    → get_node false req.node_ip h.node_mgr ≡ some node
    → lookup (append "inst-" nanos) h.inst_mgr.metrics_cache ≡ none
    → let id = append "inst-" nanos in
      let (after, reply) =
        deploy_instance false false false post_fails client nanos (some url) (some req) h in
      (get_instance false id after.inst_mgr
        ≡ some (
            new_instance id req.system_id req.node_ip req.service_name req.service_version
              (if post_fails then "error" else "deploying")))
      × ((j : String)
          → (if id == j
              then get_instance false j h.inst_mgr
              else get_instance false j after.inst_mgr)
            ≡ get_instance false j h.inst_mgr)
      × (after.posts
          ≡ record {
            ip = node.ip;
            port = node.port;
            command = deploy (record {
              instance_id = id;
              system_name = req.system_id;
              service_name = req.service_name;
              version = req.service_version;
              download_url = url;
            });
          }
            ∷ h.posts)
      × (reply ≡ (if post_fails then reply_error Code.deploy_failed else reply_success no_data))
unfolding deploy_on broadcast_update
deploy_instance_lem true client nanos url req node h found fresh =
    rw (deploy_instance-known true client nanos url req node h found) (
      ground (
        arith,
        get_instance-placed true (append "inst-" nanos) req.system_id req.node_ip req.service_name
            req.service_version "deploying" (append "inst-" nanos) h.inst_mgr fresh,
        ==_refl (append "inst-" nanos),
      ),
      λ j. ground (
        arith,
        get_instance-placed true (append "inst-" nanos) req.system_id req.node_ip req.service_name
            req.service_version "deploying" j h.inst_mgr fresh,
      ),
      refl,
      refl,
    )
deploy_instance_lem false client nanos url req node h found fresh =
    rw (deploy_instance-known false client nanos url req node h found) (
      ground (
        arith,
        get_instance-placed false (append "inst-" nanos) req.system_id req.node_ip req.service_name
            req.service_version "deploying" (append "inst-" nanos) h.inst_mgr fresh,
        ==_refl (append "inst-" nanos),
      ),
      λ j. ground (
        arith,
        get_instance-placed false (append "inst-" nanos) req.system_id req.node_ip req.service_name
            req.service_version "deploying" j h.inst_mgr fresh,
      ),
      refl,
      refl,
    )
