-- ===== src/Instance/Grouping.antt =====
-- The maps that GetAllInstances and GetFullView build with append hold, under each key, the values
-- with that key, in the order of the rows.
use ops_system.Prelude.{
  String, ◌≡◌, refl, List, [], ◌∷◌, ◌++◌, map, some, arith, ◌==◌, string_key, if◌then◌else◌, keep,
  eq_iff, ◌∙◌, sym, ap, false,
}
use ops_system.Assoc.{Assoc, lookup, lookup-insert}
use ops_system.Instance.{
  InstanceRow, InstanceManager, load, or_empty, push, group, get_all_instances,
  get_system_instances,
}
use mathlib.Core.List.{append_assoc, append-nil}

module _ {ℓ} {V : Type ℓ} where
  lookup-push :
      (k j : String) (v : V) (m : Assoc String (List V))
      → or_empty (lookup j (push k v m)) ≡ or_empty (lookup j m) ++ (if k == j then v ∷ [] else [])
  unfolding push
  lookup-push k j v m = ground (
    arith,
    eq_iff k j,
    lookup-insert k j (or_empty (lookup k m) ++ v ∷ []) m,
    append-nil (or_empty (lookup j m)),
  )

  pub lookup-group :
      (key : V → String) (j : String) (vs : List V) (m : Assoc String (List V))
      → or_empty (lookup j (group key vs m)) ≡ or_empty (lookup j m) ++ keep (λ v. key v == j) vs
  unfolding group
  lookup-group key j [] m = sym (append-nil (or_empty (lookup j m)))
  lookup-group key j (v ∷ vs) m =
      lookup-group key j vs (push (key v) v m)
      ∙ ap (λ l. l ++ keep (λ w. key w == j) vs) (lookup-push (key v) j v m)
      ∙ append_assoc (or_empty (lookup j m)) (if key v == j then v ∷ [] else [])
          (keep (λ w. key w == j) vs)
      ∙ ap (◌++◌ (or_empty (lookup j m))) (ground arith)

load-system_id : (im : InstanceManager) (r : InstanceRow) → (load im r).system_id ≡ r.system_id
load-system_id im r = ground arith

keep-load :
    (im : InstanceManager) (s : String) (rs : List InstanceRow)
    → keep (λ i. i.system_id == s) (map (load im) rs)
      ≡ map (load im) (keep (λ r. r.system_id == s) rs)
keep-load im s [] = refl
keep-load im s (r ∷ rs) = ground (arith, load-system_id im r, keep-load im s rs)

-- Under a system's id the map of GetAllInstances holds, in the order of the rows, exactly the
-- instances that GetSystemInstances returns for that system; a system with none has no entry or an
-- empty list.
pub get_all_instances-get_system_instances :
    (im : InstanceManager) (s : String)
    → get_system_instances false s im ≡ some (or_empty (lookup s (get_all_instances im)))
unfolding get_all_instances get_system_instances lookup
get_all_instances-get_system_instances im s =
    ap some
      (sym (lookup-group (λ i. i.system_id) s (map (load im) im.rows) [] ∙ keep-load im s im.rows))
