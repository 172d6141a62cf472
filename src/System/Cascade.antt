-- ===== src/System/Cascade.antt =====
-- What DeleteSystem removes, and what it leaves.
use ops_system.Prelude.{
  String, ◌≡◌, ◌≢◌, refl, ap, ◌∙◌, List, [], ◌∷◌, map, none, some, Bool, false, arith, ◌==◌,
  string_key, eq_iff, keep, not, if◌then◌else◌, ==_refl, ==_ne,
}
use ops_system.Assoc.{lookup}
use ops_system.Table.{find}
use ops_system.Table.Laws.{find-delete}
use ops_system.Protocol.{SystemModule}
use ops_system.Instance.{
  InstanceManager, InstanceRow, get_system_instances, load, clean_cache_for_system,
}
use ops_system.Instance.Laws.{has_id, clean_cache_for_system_lem}
use ops_system.System.{SystemManager, system_key, delete_system}

-- Filtering by a key after deleting by another.
keep-delete_same {ℓ} :
    {A : Type ℓ} (key : A → String) (k : String) (xs : List A)
    → keep (λ x. key x == k) (keep (λ x. not (key x == k)) xs) ≡ []
keep-delete_same key k [] = refl
keep-delete_same key k (x ∷ xs) = ground (arith, keep-delete_same key k xs)

keep-delete_ne {ℓ} :
    {A : Type ℓ} (key : A → String) (k j : String) (xs : List A)
    → k ≢ j
    → keep (λ x. key x == j) (keep (λ x. not (key x == k)) xs) ≡ keep (λ x. key x == j) xs
keep-delete_ne key k j [] h = refl
keep-delete_ne key k j (x ∷ xs) h =
    ground (arith, eq_iff (key x) k, eq_iff (key x) j, keep-delete_ne key k j xs h)

-- A committed DeleteSystem leaves no trace of the system: its entry, its modules and its instances
-- are gone, and no instance that it had leaves metrics behind.
pub delete_system-gone :
    (s j : String) (sm : SystemManager) (im : InstanceManager)
    → let after = delete_system false s sm im in
      (find system_key s after.0.systems ≡ none)
      × (keep (λ m. m.system_id == s) after.0.modules ≡ [])
      × (get_system_instances false s after.1 ≡ some [])
      × ((if has_id j (keep (λ r. r.system_id == s) im.rows)
            then lookup j after.1.metrics_cache
            else none)
          ≡ none)
      × (after.2 ≡ false)
unfolding delete_system get_system_instances
delete_system-gone s j sm im = (
  rw (find-delete system_key s s sm.systems, ==_refl s),
  keep-delete_same (λ (m : SystemModule). m.system_id) s sm.modules,
  ap (λ rows. some (map (load (clean_cache_for_system s im)) rows))
      (ap
          (λ (rows : List InstanceRow).
            keep (λ r. r.system_id == s) (keep (λ r. not (r.system_id == s)) rows))
          (clean_cache_for_system_lem s j im).0
        ∙ keep-delete_same (λ (r : InstanceRow). r.system_id) s im.rows),
  ground (arith, (clean_cache_for_system_lem s j im).1),
  refl,
)

-- DeleteSystem leaves every other system alone: its entry, its modules and its instances in the
-- tables, and the metrics of every id that the deleted system did not have.
pub delete_system-others :
    (fault : Bool) (s t : String) (sm : SystemManager) (im : InstanceManager)
    → s ≢ t
    → let after = delete_system fault s sm im in
      (find system_key t after.0.systems ≡ find system_key t sm.systems)
      × (keep (λ m. m.system_id == t) after.0.modules ≡ keep (λ m. m.system_id == t) sm.modules)
      × (keep (λ r. r.system_id == t) after.1.rows ≡ keep (λ r. r.system_id == t) im.rows)
      × ((j : String)
          → (if has_id j (keep (λ r. r.system_id == s) im.rows)
              then lookup j im.metrics_cache
              else lookup j after.1.metrics_cache)
            ≡ lookup j im.metrics_cache)
unfolding delete_system
delete_system-others fault s t sm im apart = (
  ground (arith, find-delete system_key s t sm.systems, ==_ne s t apart),
  ground (arith, keep-delete_ne (λ (m : SystemModule). m.system_id) s t sm.modules apart),
  ground (
    arith,
    keep-delete_ne (λ (r : InstanceRow). r.system_id) s t im.rows apart,
    (clean_cache_for_system_lem s t im).0,
  ),
  λ j. ground (arith, (clean_cache_for_system_lem s j im).1),
)
