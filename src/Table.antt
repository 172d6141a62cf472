-- ===== src/Table.antt =====
-- SQL tables as lists of rows, with the statements that the managers send to SQLite: a `WHERE`
-- clause is a Boolean test on the row, and `key` reads the primary key. A statement that fails
-- (the fault is `true`) has no effect, since SQLite's statements are atomic.
pub mod Laws
pub mod Order
use ops_system.Prelude.{
  ℕ, ◌++◌, Bool, List, [], ◌∷◌, Option, none, some, Key, ◌==◌, if◌then◌else◌, keep, not, leb,
}

-- The effect of a statement that may fail.
abbrev pub exec {ℓ} : {T : Type ℓ} → Bool → (T → T) → T → T
exec fault f t = if fault then t else f t

module _ {ℓ} {A : Type ℓ} where
  -- DELETE FROM t WHERE p
  abbrev pub delete_where : (A → Bool) → List A → List A
  delete_where p = keep (λ r. not (p r))

  -- UPDATE t SET ... WHERE p
  abbrev pub update_where : (A → Bool) → (A → A) → List A → List A
  update_where p f [] = []
  update_where p f (r ∷ t) = (if p r then f r else r) ∷ update_where p f t

-- SELECT ... ORDER BY time DESC: each row goes behind the later ones and the equal ones before it
module _ {ℓ} {A : Type ℓ} (time : A → ℕ) where
  unfoldable pub insert_desc : A → List A → List A
  insert_desc r [] = r ∷ []
  insert_desc r (x ∷ xs) = if leb (time r) (time x) then x ∷ insert_desc r xs else r ∷ x ∷ xs

  unfoldable pub order_desc : List A → List A → List A
  unfolding insert_desc
  order_desc [] sorted = sorted
  order_desc (r ∷ rs) sorted = order_desc rs (insert_desc r sorted)

module _ {ℓ κ} {A : Type ℓ} {K : Type κ} ⦃e : Key K⦄ (key : A → K) where
  -- SELECT ... FROM t WHERE key = k, as QueryRow reads it
  unfoldable pub find : K → List A → Option A
  find k [] = none
  find k (r ∷ t) = if key r == k then some r else find k t

  -- DELETE FROM t WHERE key = k
  unfoldable pub delete : K → List A → List A
  delete k = delete_where (λ r. key r == k)

  -- UPDATE t SET ... WHERE key = k
  unfoldable pub update : K → (A → A) → List A → List A
  update k = update_where (λ r. key r == k)

  -- INSERT OR REPLACE INTO t: the row with the same key goes, the new row comes last
  unfoldable pub replace : A → List A → List A
  unfolding delete
  replace r t = delete (key r) t ++ r ∷ []

  -- INSERT INTO t: none is the violation of the primary key
  unfoldable pub insert : A → List A → Option (List A)
  unfolding find
  insert r t = elim (find (key r) t) [ none ↦ some (t ++ r ∷ []) | some _ ↦ none ]
