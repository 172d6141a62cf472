-- ===== src/Table/Laws.antt =====
-- What a query by primary key finds after each statement, and that keys stay distinct.
use ops_system.Prelude.{
  ◌≡◌, refl, ◌++◌, Bool, List, [], ◌∷◌, none, some, arith, Key, ◌==◌, if◌then◌else◌, keep, ==_refl,
  All, All-keep, subst, Bool-cases, inl, inr,
}
use ops_system.Table.{update_where, find, delete, update, replace, insert}
use mathlib.Core.Option

module _ {ℓ} {A : Type ℓ} where
  pub All-update_where {κ} :
      (P : A → Type κ) (p : A → Bool) (f : A → A) (t : List A)
      → ((r : A) → P r → P (f r))
      → All P t
      → All P (update_where p f t)
  All-update_where P p f [] h a = tt
  All-update_where P p f (r ∷ t) h a = elim (Bool-cases (p r)) [
    | inl e ↦ rw e (h r a.0, All-update_where P p f t h a.1)
    | inr e ↦ rw e (a.0, All-update_where P p f t h a.1)
  ]

module _ {ℓ κ} {A : Type ℓ} {K : Type κ} ⦃e : Key K⦄ (key : A → K) where
  abbrev pub DistinctKeys : List A → Type ℓ
  DistinctKeys [] = Unit
  DistinctKeys (r ∷ t) = (find key (key r) t ≡ none) × DistinctKeys t

  pub find-delete :
      (k j : K) (t : List A) → find key j (delete key k t) ≡ (if k == j then none else find key j t)
  unfolding find delete
  find-delete k j [] = ground arith
  find-delete k j (r ∷ t) = ground (
    arith,
    e.matches_iff k j,
    e.matches_iff (key r) k,
    e.matches_iff (key r) j,
    find-delete k j t,
  )

  pub find-append :
      (k : K) (t u : List A)
      → find key k (t ++ u) ≡ elim (find key k t) [ none ↦ find key k u | some r ↦ some r ]
  unfolding find
  find-append k [] u = refl
  find-append k (r ∷ t) u = ground (arith, find-append k t u)

  pub find-key : (k : K) (t : List A) (r : A) → find key k t ≡ some r → key r ≡ k
  unfolding find
  find-key k [] r h = cc
  find-key k (x ∷ t) r h = ground (arith, e.matches_iff (key x) k, find-key k t r)

  -- An update that leaves the key alone is seen at its own key, and nowhere else.
  pub find-update :
      (k j : K) (f : A → A) (t : List A)
      → ((r : A) → key (f r) ≡ key r)
      → find key j (update key k f t)
        ≡ (if k == j then Option.map f (find key j t) else find key j t)
  unfolding find update
  find-update k j f [] h = ground arith
  find-update k j f (r ∷ t) h = ground (
    arith,
    h r,
    e.matches_iff k j,
    e.matches_iff (key r) k,
    e.matches_iff (key r) j,
    find-update k j f t h,
  )

  pub find-replace :
      (r : A) (j : K) (t : List A)
      → find key j (replace key r t) ≡ (if key r == j then some r else find key j t)
  unfolding replace find
  find-replace r j t = ground (
    arith,
    find-append j (delete key (key r) t) (r ∷ []),
    find-delete (key r) j t,
    e.matches_iff (key r) j,
  )

  find-keep-none :
      (p : A → Bool) (k : K) (t : List A) → find key k t ≡ none → find key k (keep p t) ≡ none
  unfolding find
  find-keep-none p k [] h = refl
  find-keep-none p k (r ∷ t) h = ground (arith, find-keep-none p k t)

  pub DistinctKeys-keep : (p : A → Bool) (t : List A) → DistinctKeys t → DistinctKeys (keep p t)
  DistinctKeys-keep p [] d = tt
  DistinctKeys-keep p (r ∷ t) d =
      ground (arith, DistinctKeys-keep p t d.1, find-keep-none p (key r) t d.0)

  find-update_none :
      (p : A → Bool) (f : A → A) (k : K) (t : List A)
      → ((r : A) → key (f r) ≡ key r)
      → find key k t ≡ none
      → find key k (update_where p f t) ≡ none
  unfolding find
  find-update_none p f k [] h n = refl
  find-update_none p f k (r ∷ t) h n = ground (arith, h r, find-update_none p f k t h)

  pub DistinctKeys-update :
      (p : A → Bool) (f : A → A) (t : List A)
      → ((r : A) → key (f r) ≡ key r)
      → DistinctKeys t
      → DistinctKeys (update_where p f t)
  DistinctKeys-update p f [] h d = tt
  DistinctKeys-update p f (r ∷ t) h d =
      ground (arith, h r, DistinctKeys-update p f t h d.1, find-update_none p f (key r) t h d.0)

  pub DistinctKeys-update_key :
      (k : K) (f : A → A) (t : List A)
      → ((r : A) → key (f r) ≡ key r)
      → DistinctKeys t
      → DistinctKeys (update key k f t)
  unfolding update
  DistinctKeys-update_key k f t h d = DistinctKeys-update (λ r. key r == k) f t h d

  pub DistinctKeys-append :
      (r : A) (t : List A) → find key (key r) t ≡ none → DistinctKeys t → DistinctKeys (t ++ r ∷ [])
  unfolding find
  DistinctKeys-append r [] n d = (refl, tt)
  DistinctKeys-append r (x ∷ t) n d = ground (
    arith,
    e.matches_iff (key x) (key r),
    e.matches_iff (key r) (key x),
    find-append (key x) t (r ∷ []),
    DistinctKeys-append r t,
  )

  pub DistinctKeys-delete : (k : K) (t : List A) → DistinctKeys t → DistinctKeys (delete key k t)
  unfolding delete
  DistinctKeys-delete k t d = DistinctKeys-keep _ t d

  pub DistinctKeys-replace : (r : A) (t : List A) → DistinctKeys t → DistinctKeys (replace key r t)
  unfolding replace
  DistinctKeys-replace r t d =
      DistinctKeys-append r (delete key (key r) t)
        (rw (find-delete (key r) (key r) t, ==_refl (key r))) (DistinctKeys-delete (key r) t d)

  pub insert_of_none :
      (r : A) (t : List A) → find key (key r) t ≡ none → insert key r t ≡ some (t ++ r ∷ [])
  unfolding insert
  insert_of_none r t h = rw (h, insert)

  pub insert_of_some : (r s : A) (t : List A) → find key (key r) t ≡ some s → insert key r t ≡ none
  unfolding insert
  insert_of_some r s t h = rw (h, insert)

  pub find-append_new :
      (r : A) (j : K) (t : List A)
      → find key (key r) t ≡ none
      → find key j (t ++ r ∷ []) ≡ (if key r == j then some r else find key j t)
  unfolding find
  find-append_new r j t h = ground (arith, find-append j t (r ∷ []), e.matches_iff (key r) j)

  pub All-update {μ} :
      (P : A → Type μ) (k : K) (f : A → A) (t : List A)
      → ((r : A) → P r → P (f r))
      → All P t
      → All P (update key k f t)
  unfolding update
  All-update P k f t h a = All-update_where P (λ r. key r == k) f t h a

  pub All-delete {μ} : (P : A → Type μ) (k : K) (t : List A) → All P t → All P (delete key k t)
  unfolding delete
  All-delete P k t a = All-keep P _ t a

  pub find-All {μ} :
      (P : A → Type μ) (k : K) (t : List A) (r : A) → All P t → find key k t ≡ some r → P r
  unfolding find
  find-All P k [] r a h = cc
  find-All P k (x ∷ t) r a h = elim (Bool-cases (key x == k)) [
    | inl e ↦ subst P (ground arith) a.0
    | inr e ↦ find-All P k t r a.1 (ground arith)
  ]
