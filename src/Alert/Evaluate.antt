-- ===== src/Alert/Evaluate.antt =====
-- AlertManager.evaluate: one pass over the rules and the snapshots of nodes and instances. A `range`
-- over a snapshot visits its entries in some order; here it is the order of the association list.
use Prim.Native.String.{◌++◌ as append}
use ops_system.Prelude.{
  ℕ, String, List, [], ◌∷◌, none, some, Bool, ◌==◌, string_key, if◌then◌else◌, All, arith, true,
  false,
}
use ops_system.Assoc.{Assoc}
use ops_system.Float64.{Float64, of_uint64}
use ops_system.Protocol.{AlertRule, NodeInfo, InstanceInfo}
use ops_system.Alert.{AlertManager, StateKey, check_condition, handle_state, get_rules}
use ops_system.Node.{NodeManager, get_all_nodes_metrics}
use ops_system.Instance.{InstanceManager, get_all_instances_metrics}

-- fmt.Sprintf("%s (%s)", ...)
abbrev pub instance_label : InstanceInfo → String
instance_label inst = append inst.service_name (append " (" (append inst.node_ip ")"))

-- `clock` is the time that is read while a key's state is handled.
module _ (fixed1 : Float64 → String) (now : ℕ) (clock : StateKey → ℕ) where
  pub observe : AlertRule → String → String → Float64 × Bool → AlertManager → AlertManager
  observe rule target_id target_name (val, triggered) am =
      handle_state fixed1 rule target_id target_name val triggered now
        (clock (record { rule_id = rule.id; target_id = target_id })) am

  unfoldable pub evaluate_nodes : AlertRule → Assoc String NodeInfo → AlertManager → AlertManager
  unfolding observe
  evaluate_nodes rule [] am = am
  evaluate_nodes rule ((_, node) ∷ nodes) am = evaluate_nodes rule nodes (
      observe rule node.ip node.hostname
        (check_condition rule node.status node.cpu_usage node.mem_usage) am)

  unfoldable pub evaluate_instances :
      AlertRule → Assoc String InstanceInfo → AlertManager → AlertManager
  unfolding observe
  evaluate_instances rule [] am = am
  evaluate_instances rule ((_, inst) ∷ insts) am = evaluate_instances rule insts (
      observe rule inst.id (instance_label inst)
        (check_condition rule inst.status inst.cpu_usage (of_uint64 inst.mem_usage)) am)

  -- the body of the loop over the rules
  unfoldable pub evaluate_rule :
      AlertRule → Assoc String NodeInfo → Assoc String InstanceInfo → AlertManager → AlertManager
  evaluate_rule rule nodes insts am =
      if rule.enabled
      then (if rule.target_type == "node"
          then evaluate_nodes rule nodes am
          else (if rule.target_type == "instance" then evaluate_instances rule insts am else am))
      else am

  unfoldable pub evaluate_rules :
      List AlertRule
      → Assoc String NodeInfo
      → Assoc String InstanceInfo
      → AlertManager
      → AlertManager
  evaluate_rules [] nodes insts am = am
  evaluate_rules (rule ∷ rules) nodes insts am =
      evaluate_rules rules nodes insts (evaluate_rule rule nodes insts am)

  -- A failed query for the rules leaves no rules. `node_now` is the clock of GetAllNodes.
  unfoldable pub evaluate :
      Bool → Bool → ℕ → NodeManager → InstanceManager → AlertManager → AlertManager
  evaluate rules_fault nodes_fault node_now nm im am = elim (get_rules rules_fault am) [
    | none ↦ am
    | some rules ↦
        evaluate_rules rules (get_all_nodes_metrics nodes_fault node_now nm)
          (get_all_instances_metrics im) am
  ]

-- What every observation by a rule of the list keeps, the evaluation of the list keeps.
module _ (fixed1 : Float64 → String) (now : ℕ) (clock : StateKey → ℕ) (Q : AlertRule → Type 0)
    (P : AlertManager → Type 0)
    (keeps : (rule : AlertRule) (target_id target_name : String) (val : Float64) (triggered : Bool)
        (at : ℕ) (am : AlertManager)
      → Q rule
      → P am
      → P (handle_state fixed1 rule target_id target_name val triggered now at am)) where
  keeps-nodes :
      (rule : AlertRule) (nodes : Assoc String NodeInfo) (am : AlertManager)
      → Q rule
      → P am
      → P (evaluate_nodes fixed1 now clock rule nodes am)
  unfolding evaluate_nodes
  keeps-nodes rule [] am q p = p
  keeps-nodes rule ((_, node) ∷ nodes) am q p =
      keeps-nodes rule nodes _ q (keeps rule node.ip node.hostname _ _ _ am q p)

  keeps-instances :
      (rule : AlertRule) (insts : Assoc String InstanceInfo) (am : AlertManager)
      → Q rule
      → P am
      → P (evaluate_instances fixed1 now clock rule insts am)
  unfolding evaluate_instances
  keeps-instances rule [] am q p = p
  keeps-instances rule ((_, inst) ∷ insts) am q p =
      keeps-instances rule insts _ q (keeps rule inst.id (instance_label inst) _ _ _ am q p)

  keeps-rule :
      (rule : AlertRule) (nodes : Assoc String NodeInfo) (insts : Assoc String InstanceInfo)
      (am : AlertManager)
      → Q rule
      → P am
      → P (evaluate_rule fixed1 now clock rule nodes insts am)
  unfolding evaluate_rule
  keeps-rule rule nodes insts am q p =
      ground (arith, keeps-nodes rule nodes am q p, keeps-instances rule insts am q p)

  pub keeps-rules :
      (rules : List AlertRule) (nodes : Assoc String NodeInfo) (insts : Assoc String InstanceInfo)
      (am : AlertManager)
      → All Q rules
      → P am
      → P (evaluate_rules fixed1 now clock rules nodes insts am)
  unfolding evaluate_rules
  keeps-rules [] nodes insts am q p = p
  keeps-rules (rule ∷ rules) nodes insts am q p =
      keeps-rules rules nodes insts (evaluate_rule fixed1 now clock rule nodes insts am) q.1
        (keeps-rule rule nodes insts am q.0 p)

  -- The rules of an evaluation are those of the state.
  pub keeps-evaluate :
      (rules_fault nodes_fault : Bool) (node_now : ℕ) (nm : NodeManager) (im : InstanceManager)
      (am : AlertManager)
      → All Q am.rules
      → P am
      → P (evaluate fixed1 now clock rules_fault nodes_fault node_now nm im am)
  unfolding evaluate get_rules
  keeps-evaluate true nodes_fault node_now nm im am q p = p
  keeps-evaluate false nodes_fault node_now nm im am q p = keeps-rules am.rules _ _ am q p
