-- ===== src/Instance/Snapshot.antt =====
-- GetAllInstancesMetrics, the snapshot that alert rules are evaluated on, against GetInstance.
use ops_system.Prelude.{
  String, ◌≡◌, refl, sym, ap, subst, ◌∙◌, List, [], ◌∷◌, ◌++◌, map, Option, none, some, Bool, true,
  false, arith, ◌==◌, string_key, if◌then◌else◌, eq_iff, ◌||◌, All, All-append, Bool-cases,
  Option-cases, inl, inr,
}
use ops_system.Assoc.{Assoc, lookup, insert, lookup-insert}
use ops_system.Table.{find}
use ops_system.Table.Laws.{DistinctKeys, find-key}
use ops_system.Protocol.{InstanceInfo}
use ops_system.Instance.{
  InstanceManager, InstanceRow, add_metrics, scan_row, row_id, load, or_empty, push, group,
  index_list, index_groups, get_instance, get_all_instances, get_all_instances_metrics,
}
use ops_system.Instance.Invariant.{IsKeyed}
use mathlib.Core.Option

-- some instance of the list has the id
abbrev hits : String → List InstanceInfo → Bool
hits id [] = false
hits id (i ∷ is) = i.id == id || hits id is

abbrev group_hits : String → Assoc String (List InstanceInfo) → Bool
group_hits id [] = false
group_hits id (g ∷ gs) = hits id g.1 || group_hits id gs

-- Every instance of the list that has the id is the one.
abbrev Agrees : Option InstanceInfo → String → List InstanceInfo → Type 0
Agrees one id = All (λ (i : InstanceInfo). i.id ≡ id → some i ≡ one)

module _ (one : Option InstanceInfo) (id : String) where
  abbrev GroupsAgree : Assoc String (List InstanceInfo) → Type 0
  GroupsAgree = All (λ (g : String × List InstanceInfo). Agrees one id g.1)

  lookup-index_list :
      (is : List InstanceInfo) (res : Assoc String InstanceInfo)
      → Agrees one id is
      → lookup id (index_list is res) ≡ (if hits id is then one else lookup id res)
  unfolding index_list
  lookup-index_list [] res a = refl
  lookup-index_list (i ∷ is) res a = ground (
    arith,
    lookup-index_list is (insert i.id i res) a.1,
    lookup-insert i.id id i res,
    eq_iff i.id id,
    a.0,
  )

  lookup-index_groups :
      (gs : Assoc String (List InstanceInfo)) (res : Assoc String InstanceInfo)
      → GroupsAgree gs
      → lookup id (index_groups gs res) ≡ (if group_hits id gs then one else lookup id res)
  unfolding index_groups
  lookup-index_groups [] res a = refl
  lookup-index_groups (g ∷ gs) res a =
      ground (arith, lookup-index_groups gs (index_list g.1 res) a.1, lookup-index_list g.1 res a.0)

  hits-append : (is js : List InstanceInfo) → hits id (is ++ js) ≡ (hits id is || hits id js)
  hits-append [] js = refl
  hits-append (i ∷ is) js = ground (arith, hits-append is js)

  group_hits-insert :
      (k : String) (w : List InstanceInfo) (new : Bool) (gs : Assoc String (List InstanceInfo))
      → hits id w ≡ (hits id (or_empty (lookup k gs)) || new)
      → group_hits id (insert k w gs) ≡ (group_hits id gs || new)
  unfolding insert lookup
  group_hits-insert k w new [] h = ground (arith, h)
  group_hits-insert k w new (g ∷ gs) h = elim (Bool-cases (g.0 == k)) [
    | inl same ↦ ground (arith, same, h)
    | inr other ↦ ground (arith, other, h, group_hits-insert k w new gs)
  ]

  Agrees-lookup :
      (k : String) (gs : Assoc String (List InstanceInfo))
      → GroupsAgree gs
      → Agrees one id (or_empty (lookup k gs))
  unfolding lookup
  Agrees-lookup k [] a = tt
  Agrees-lookup k (g ∷ gs) a = elim (Bool-cases (g.0 == k)) [
    | inl same ↦ rw same a.0
    | inr other ↦ rw other (Agrees-lookup k gs a.1)
  ]

  GroupsAgree-insert :
      (k : String) (w : List InstanceInfo) (gs : Assoc String (List InstanceInfo))
      → Agrees one id w
      → GroupsAgree gs
      → GroupsAgree (insert k w gs)
  unfolding insert
  GroupsAgree-insert k w [] b a = (b, tt)
  GroupsAgree-insert k w (g ∷ gs) b a = elim (Bool-cases (g.0 == k)) [
    | inl same ↦ rw same (b, a.1)
    | inr other ↦ rw other (a.0, GroupsAgree-insert k w gs b a.1)
  ]

  group_hits-group :
      (is : List InstanceInfo) (gs : Assoc String (List InstanceInfo))
      → group_hits id (group (λ i. i.system_id) is gs) ≡ (group_hits id gs || hits id is)
  unfolding group push
  group_hits-group [] gs = ground arith
  group_hits-group (i ∷ is) gs = ground (
    arith,
    group_hits-group is (push i.system_id i gs),
    group_hits-insert i.system_id (or_empty (lookup i.system_id gs) ++ i ∷ []) (i.id == id) gs,
    hits-append (or_empty (lookup i.system_id gs)) (i ∷ []),
  )

  GroupsAgree-group :
      (is : List InstanceInfo) (gs : Assoc String (List InstanceInfo))
      → Agrees one id is
      → GroupsAgree gs
      → GroupsAgree (group (λ i. i.system_id) is gs)
  unfolding group push
  GroupsAgree-group [] gs a b = b
  GroupsAgree-group (i ∷ is) gs a b = GroupsAgree-group is (push i.system_id i gs) a.1 (
      GroupsAgree-insert i.system_id (or_empty (lookup i.system_id gs) ++ i ∷ []) gs
        (All-append _ (or_empty (lookup i.system_id gs)) (i ∷ []) (Agrees-lookup i.system_id gs b)
          (a.0, tt))
        b)

-- The row of an id as the methods load it.
abbrev loaded : InstanceManager → String → List InstanceRow → Option InstanceInfo
loaded im id rows = Option.map (load im) (find row_id id rows)

load-id : (im : InstanceManager) (r : InstanceRow) → (load im r).id ≡ r.id
load-id im r = ground arith

hits-load :
    (im : InstanceManager) (id : String) (rows : List InstanceRow)
    → (if hits id (map (load im) rows) then loaded im id rows else none) ≡ loaded im id rows
unfolding find
hits-load im id [] = refl
hits-load im id (r ∷ rows) = ground (arith, hits-load im id rows, load-id im r)

Agrees-absent :
    (im : InstanceManager) (one : Option InstanceInfo) (id : String) (rows : List InstanceRow)
    → find row_id id rows ≡ none
    → Agrees one id (map (load im) rows)
unfolding find
Agrees-absent im one id [] h = tt
Agrees-absent im one id (r ∷ rows) h = (
  λ same. absurd (ground (arith, h, load-id im r, same, eq_iff r.id id)),
  Agrees-absent im one id rows (ground (arith, h)),
)

loaded-same :
    (im : InstanceManager) (id : String) (r : InstanceRow) (rows : List InstanceRow)
    → (r.id == id) ≡ true
    → loaded im id (r ∷ rows) ≡ some (load im r)
unfolding find
loaded-same im id r rows same = rw same refl

loaded-other :
    (im : InstanceManager) (id : String) (r : InstanceRow) (rows : List InstanceRow)
    → (r.id == id) ≡ false
    → loaded im id (r ∷ rows) ≡ loaded im id rows
unfolding find
loaded-other im id r rows other = rw other refl

Agrees-load :
    (im : InstanceManager) (id : String) (rows : List InstanceRow)
    → DistinctKeys row_id rows
    → Agrees (loaded im id rows) id (map (load im) rows)
unfolding find
Agrees-load im id [] d = tt
Agrees-load im id (r ∷ rows) d = elim (Bool-cases (r.id == id)) [
  | inl same ↦
      subst (λ one. Agrees one id (map (load im) (r ∷ rows))) (sym (loaded-same im id r rows same))
        (
          λ is. refl,
          Agrees-absent im (some (load im r)) id rows
              (ap (λ k. find row_id k rows) (sym ((eq_iff r.id id).0 same)) ∙ d.0),
        )
  | inr other ↦
      subst (λ one. Agrees one id (map (load im) (r ∷ rows)))
        (sym (loaded-other im id r rows other))
        (
          λ is. absurd (ground (arith, load-id im r, is, eq_iff r.id id, other)),
          Agrees-load im id rows d.1,
        )
]

loaded-get_instance :
    (im : InstanceManager) (id : String) → loaded im id im.rows ≡ get_instance false id im
unfolding get_instance
loaded-get_instance im id = elim (Option-cases (find row_id id im.rows)) [
  | inl absent ↦ rw absent refl
  | inr (r, at) ↦ rw at (
      ap (λ k. some (add_metrics (lookup k im.metrics_cache) (scan_row r)))
        (find-key row_id id im.rows r at))
]

-- With distinct ids the snapshot of GetAllInstancesMetrics holds under each id exactly what
-- GetInstance returns for it, with the cached metrics, whatever system the instance belongs to, and
-- no entry where GetInstance finds no instance.
pub get_all_instances_metrics-get_instance :
    (im : InstanceManager) (id : String)
    → IsKeyed im
    → lookup id (get_all_instances_metrics im) ≡ get_instance false id im
unfolding get_all_instances_metrics get_all_instances lookup
get_all_instances_metrics-get_instance im id d =
    let one = loaded im id im.rows in
    let insts = map (load im) im.rows in
    lookup-index_groups one id (group (λ i. i.system_id) insts []) []
      (GroupsAgree-group one id insts [] (Agrees-load im id im.rows d) tt)
    ∙ ground (
      arith,
      group_hits-group one id insts [],
      hits-load im id im.rows,
      loaded-get_instance im id,
    )
