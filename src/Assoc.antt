-- ===== src/Assoc.antt =====
-- Go's `map` and `sync.Map`: an association list that holds a key once.
-- The order of the entries stands for the order, unspecified in Go, of a `range` over the map.
use ops_system.Prelude.{
  ◌≡◌, refl, ◌≢◌, List, [], ◌∷◌, Option, none, some, arith, Key, ◌==◌, if◌then◌else◌, ==_refl,
  ==_ne,
}

abbrev pub Assoc {ℓ κ} : Type ℓ → Type κ → Type (ℓ ⊔ κ)
Assoc K V = List (K × V)

module _ {ℓ κ} {K : Type ℓ} {V : Type κ} ⦃e : Key K⦄ where
  -- m[k] = v; m.Store(k, v)
  unfoldable pub insert : K → V → Assoc K V → Assoc K V
  insert k v [] = (k, v) ∷ []
  insert k v (entry ∷ rest) = if entry.0 == k then (k, v) ∷ rest else entry ∷ insert k v rest

  -- delete(m, k); m.Delete(k)
  unfoldable pub erase : K → Assoc K V → Assoc K V
  erase k [] = []
  erase k (entry ∷ rest) =
      let others = erase k rest in if entry.0 == k then others else entry ∷ others

  -- v, ok := m[k]; m.Load(k)
  unfoldable pub lookup : K → Assoc K V → Option V
  lookup k [] = none
  lookup k (entry ∷ rest) = if entry.0 == k then some entry.1 else lookup k rest

  pub lookup-erase :
      (k j : K) (m : Assoc K V) → lookup j (erase k m) ≡ (if k == j then none else lookup j m)
  unfolding lookup erase
  lookup-erase k j [] = ground arith
  lookup-erase k j (x ∷ m) =
      ground
        (arith, e.matches_iff k j, e.matches_iff x.0 k, e.matches_iff x.0 j, lookup-erase k j m)

  pub lookup-insert :
      (k j : K) (w : V) (m : Assoc K V)
      → lookup j (insert k w m) ≡ (if k == j then some w else lookup j m)
  unfolding lookup insert
  lookup-insert k j w [] = refl
  lookup-insert k j w (x ∷ m) =
      ground
        (arith, e.matches_iff k j, e.matches_iff x.0 k, e.matches_iff x.0 j, lookup-insert k j w m)

  pub lookup-insert_self : (k : K) (v : V) (m : Assoc K V) → lookup k (insert k v m) ≡ some v
  lookup-insert_self k v m = simp (lookup-insert, ==_refl)

  pub lookup-erase_self : (k : K) (m : Assoc K V) → lookup k (erase k m) ≡ none
  lookup-erase_self k m = simp (lookup-erase, ==_refl)

  pub lookup-insert_ne :
      (k j : K) (v : V) (m : Assoc K V) → k ≢ j → lookup j (insert k v m) ≡ lookup j m
  lookup-insert_ne k j v m h = rw (lookup-insert k j v m, ==_ne k j h)

  pub lookup-erase_ne : (k j : K) (m : Assoc K V) → k ≢ j → lookup j (erase k m) ≡ lookup j m
  lookup-erase_ne k j m h = rw (lookup-erase k j m, ==_ne k j h)
