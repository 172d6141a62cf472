-- ===== src/Master/Acting.antt =====
-- InstanceAction and SystemAction: what is sent, counted and removed.
use ops_system.Prelude.{
  ℕ, String, ◌≡◌, refl, ap, ◌∙◌, List, [], ◌∷◌, none, some, Bool, false, arith, ◌==◌, string_key,
  if◌then◌else◌, ◌&&◌, ◌||◌, not, eqb, ◌-◌, length, keep, map, length-keep-le,
}
use ops_system.Protocol.{InstanceInfo, InstanceActionRequest}
use ops_system.Node.{NodeManager, get_node}
use ops_system.Instance.{InstanceManager, get_instance, get_system_instances, load}
use ops_system.Instance.Laws.{get_instance-remove_instance}
use ops_system.Master.{
  ServerHandler, Payload, reply_success, nothing_to_do, done_counts, broadcast_update,
}
use ops_system.Master.InstanceApi.{instance_action, after_command, send_instance_command}
use ops_system.Master.Batch.{SystemActionReq, is_target, send_batch, act_on_targets, system_action}
use ops_system.Code
use mathlib.Core.Path.{ap₂}

-- whether the node is known and answers without an error
abbrev accepts : Bool → Bool → InstanceInfo → NodeManager → Bool
accepts offline post_fails inst nodes = elim (get_node offline inst.node_ip nodes) [
  | none ↦ false
  | some _ ↦ not post_fails
]

abbrev action_code : Bool → Bool → Bool → InstanceActionRequest → ServerHandler → ℕ
action_code read_fault offline post_fails req h =
    elim (get_instance read_fault req.instance_id h.inst_mgr) [
      | none ↦ Code.instance_not_found
      | some inst ↦
          if accepts offline post_fails inst h.node_mgr then Code.success else Code.action_failed
    ]

-- InstanceAction answers by what was found: an unknown instance, a node that is unknown or answers
-- with an error, or success. It removes an instance only on success of a destroy, and then exactly
-- the one that is named, if SQLite does not refuse the DELETE; after every other request each
-- instance reads as before.
pub instance_action_lem :
    (read_fault offline post_fails : Bool) (client : String) (req : InstanceActionRequest)
    (j : String) (h : ServerHandler)
    → let (after, reply) =
        instance_action read_fault offline false post_fails client (some req) h in
      (reply.code ≡ action_code read_fault offline post_fails req h)
      × (get_instance false j after.inst_mgr ≡ (
          if eqb reply.code Code.success && (req.action == "destroy" && req.instance_id == j)
          then none
          else get_instance false j h.inst_mgr))
unfolding instance_action after_command send_instance_command broadcast_update
instance_action_lem read_fault offline post_fails client req j h =
    (ground arith, ground (arith, (get_instance-remove_instance req.instance_id j h.inst_mgr).0))

-- the targets of a batch whose command fails
abbrev fails_at : (InstanceInfo → Bool) → (InstanceInfo → Bool) → NodeManager → InstanceInfo → Bool
fails_at lost refuses nodes inst = not (accepts (lost inst) (refuses inst) inst nodes)

send_instance_command-keeps :
    (offline post_fails : Bool) (inst : InstanceInfo) (action : String) (h : ServerHandler)
    → let (after, err) = send_instance_command offline post_fails inst action h in
      (after.node_mgr ≡ h.node_mgr)
      × (after.inst_mgr ≡ h.inst_mgr)
      × (err ≡ not (accepts offline post_fails inst h.node_mgr))
unfolding send_instance_command
send_instance_command-keeps offline post_fails inst action h =
    (ground arith, ground arith, ground arith)

send_batch_lem :
    (lost refuses : InstanceInfo → Bool) (action : String) (is : List InstanceInfo)
    (h : ServerHandler)
    → ((send_batch lost refuses action is h).1
        ≡ length (keep (fails_at lost refuses h.node_mgr) is))
      × ((send_batch lost refuses action is h).0.inst_mgr ≡ h.inst_mgr)
unfolding send_batch
send_batch_lem lost refuses action [] h = (refl, refl)
send_batch_lem lost refuses action (i ∷ is) h =
    let next = (send_instance_command (lost i) (refuses i) i action h).0 in
    let (nodes, insts, err) = send_instance_command-keeps (lost i) (refuses i) i action h in
    let (counted, kept) = send_batch_lem lost refuses action is next in
    (
      ground (arith, counted, err, ap (λ n. length (keep (fails_at lost refuses n) is)) nodes),
      kept ∙ insts,
    )

length-keep-rest {ℓ} :
    {A : Type ℓ} (p : A → Bool) (xs : List A)
    → length xs - length (keep (λ x. not (p x)) xs) ≡ length (keep p xs)
length-keep-rest p [] = refl
length-keep-rest p (x ∷ xs) =
    ground (arith, length-keep-rest p xs, length-keep-le (λ x. not (p x)) xs)

-- nothing to be done for no targets, or the numbers of those that answered and of the others
abbrev batch_data :
    (InstanceInfo → Bool) → (InstanceInfo → Bool) → NodeManager → List InstanceInfo → Payload
batch_data lost refuses nodes [] = nothing_to_do
batch_data lost refuses nodes (i ∷ is) =
    done_counts (length (keep (λ i. accepts (lost i) (refuses i) i nodes) (i ∷ is)))
      (length (keep (fails_at lost refuses nodes) (i ∷ is)))

act_on_targets_lem :
    (lost refuses : InstanceInfo → Bool) (client : String) (req : SystemActionReq)
    (is : List InstanceInfo) (h : ServerHandler)
    → let (after, reply) = act_on_targets lost refuses client req is h in
      (after.inst_mgr ≡ h.inst_mgr)
      × (reply ≡ reply_success (batch_data lost refuses h.node_mgr is))
unfolding act_on_targets
act_on_targets_lem lost refuses client req [] h = (refl, refl)
act_on_targets_lem lost refuses client req (i ∷ is) h =
    let (counted, kept) = send_batch_lem lost refuses req.action (i ∷ is) h in
    (
      kept,
      ap₂ (λ (a b : ℕ). reply_success (done_counts a b))
          (ap (λ n. length (i ∷ is) - n) counted
            ∙ length-keep-rest (λ (i : InstanceInfo). accepts (lost i) (refuses i) i h.node_mgr)
                (i ∷ is))
          counted,
    )

-- the instances of the system that the action is for, as GetSystemInstances reads them
abbrev targets : SystemActionReq → InstanceManager → List InstanceInfo
targets req im =
    keep (is_target req.action) (map (load im) (keep (λ r. r.system_id == req.system_id) im.rows))

-- SystemAction answers with the numbers of its targets whose node is known and answers without an
-- error, and of the others, or, without any target, that nothing is to be done; the targets are
-- the instances of the system that the action is for: those not running for start, those running
-- for stop, and none for another action. The table of instances stays as it was.
pub system_action_lem :
    (lost refuses : InstanceInfo → Bool) (client : String) (req : SystemActionReq)
    (h : ServerHandler)
    → let (after, reply) = system_action false lost refuses client (some req) h in
      (after.inst_mgr ≡ h.inst_mgr)
      × (reply ≡ reply_success (batch_data lost refuses h.node_mgr (targets req h.inst_mgr)))
      × ((i : InstanceInfo)
          → is_target req.action i ≡ (
              req.action == "start" && not (i.status == "running")
              || (req.action == "stop" && i.status == "running")))
unfolding system_action get_system_instances
system_action_lem lost refuses client req h =
    let (kept, answered) = act_on_targets_lem lost refuses client req (targets req h.inst_mgr) h in
    (kept, answered, λ i. ground arith)
