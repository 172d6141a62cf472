-- ===== src/Table/Order.antt =====
-- ORDER BY ... DESC permutes the rows and puts the latest first.
use mathlib.Core.List.{Perm, perm_middle, append-nil, Mem, Memᴰ, mem-cons_self, mem-cons_of_mem}
use mathlib.Core.List.Memᴰ
use mathlib.Core.List.Perm
use ops_system.Prelude.{
  ℕ, ◌≤◌, List, [], ◌∷◌, ◌++◌, arith, leb, Bool-cases, inl, inr, All, subst, sym, ap, ◌≡◌, ◌∙◌, ◌⊎◌,
}
use ops_system.Table.{insert_desc, order_desc}
use mathlib.Core.Logic.{∥∥₁_elim}
use native.Mathlib.Bridge.{le_prop}

module _ {ℓ} {A : Type ℓ} (time : A → ℕ) where
  abbrev pub IsNewestFirst : List A → Type 0
  IsNewestFirst [] = Unit
  IsNewestFirst (r ∷ rs) = All (λ x. time x ≤ time r) rs × IsNewestFirst rs

  insert_desc-perm : (r : A) (xs : List A) → Perm (insert_desc time r xs) (r ∷ xs)
  unfolding insert_desc
  insert_desc-perm r [] = Perm.refl (r ∷ [])
  insert_desc-perm r (x ∷ xs) = elim (Bool-cases (leb (time r) (time x))) [
    | inl e ↦ rw e (Perm.trans (Perm.cons x (insert_desc-perm r xs)) (Perm.swap r x xs))
    | inr e ↦ rw e (Perm.refl (r ∷ x ∷ xs))
  ]

  order_desc-perm_acc : (rs sorted : List A) → Perm (order_desc time rs sorted) (rs ++ sorted)
  unfolding order_desc
  order_desc-perm_acc [] sorted = Perm.refl sorted
  order_desc-perm_acc (r ∷ rs) sorted =
      Perm.trans (order_desc-perm_acc rs (insert_desc time r sorted))
        (Perm.trans (Perm.append_left rs (insert_desc-perm r sorted)) (perm_middle rs sorted))

  pub order_desc-perm : (rs : List A) → Perm (order_desc time rs []) rs
  order_desc-perm rs =
      subst (Perm (order_desc time rs [])) (append-nil rs) (order_desc-perm_acc rs [])

  All-insert_desc :
      (n : ℕ) (r : A) (xs : List A)
      → time r ≤ n
      → All (λ x. time x ≤ n) xs
      → All (λ x. time x ≤ n) (insert_desc time r xs)
  unfolding insert_desc
  All-insert_desc n r [] h a = (h, tt)
  All-insert_desc n r (x ∷ xs) h a = ground (arith, All-insert_desc n r xs h a.1)

  All-le_trans :
      (m n : ℕ) (xs : List A) → m ≤ n → All (λ x. time x ≤ m) xs → All (λ x. time x ≤ n) xs
  All-le_trans m n [] h a = tt
  All-le_trans m n (x ∷ xs) h a = (omega (arith, a.0), All-le_trans m n xs h a.1)

  insert_desc-IsNewestFirst :
      (r : A) (xs : List A) → IsNewestFirst xs → IsNewestFirst (insert_desc time r xs)
  unfolding insert_desc
  insert_desc-IsNewestFirst r [] s = (tt, tt)
  insert_desc-IsNewestFirst r (x ∷ xs) s = ground (
    arith,
    insert_desc-IsNewestFirst r xs s.1,
    All-insert_desc (time x) r xs,
    All-le_trans (time x) (time r) xs,
  )

  pub order_desc-IsNewestFirst :
      (rs sorted : List A) → IsNewestFirst sorted → IsNewestFirst (order_desc time rs sorted)
  unfolding order_desc
  order_desc-IsNewestFirst [] sorted s = s
  order_desc-IsNewestFirst (r ∷ rs) sorted s =
      order_desc-IsNewestFirst rs (insert_desc time r sorted) (insert_desc-IsNewestFirst r sorted s)

  -- what SQL says of ORDER BY time DESC: rows of one time come in any order
  abbrev pub IsOrderDesc : (List A → List A) → Type ℓ
  IsOrderDesc order = (rs : List A) → Perm (order rs) rs × IsNewestFirst (order rs)

  -- two rows of the same time are the same row
  abbrev pub HasDistinctTimes : List A → Type ℓ
  HasDistinctTimes rs = (r s : A) → Mem r rs → Mem s rs → time r ≡ time s → r ≡ s

  le-newest : (r x : A) (rs : List A) → IsNewestFirst (r ∷ rs) → Mem x (r ∷ rs) → time x ≤ time r
  le-newest r x rs s m = ∥∥₁_elim m le_prop (λ d. head_or_later (Memᴰ.cases_cons d))
    where
      later : (y : A) (xs : List A) → All (λ z. time z ≤ time r) xs → Memᴰ y xs → time y ≤ time r
      later y [] a d = absurd (Memᴰ.not-nil d)
      later y (z ∷ xs) a d = elim (Memᴰ.cases_cons d) [
        | inl e ↦ subst (λ w. time w ≤ time r) (sym e) a.0
        | inr k ↦ later y xs a.1 k
      ]

      head_or_later : (x ≡ r) ⊎ Memᴰ x rs → time x ≤ time r
      head_or_later (inl e) = subst (λ w. time w ≤ time r) (sym e) (omega arith)
      head_or_later (inr d) = later x rs s.0 d

  -- Where the times are distinct there is one order.
  pub newest_first_unique :
      (rs xs : List A)
      → Perm rs xs
      → IsNewestFirst rs
      → IsNewestFirst xs
      → HasDistinctTimes rs
      → rs ≡ xs
  newest_first_unique [] xs p s t d = Perm.nil-eq p
  newest_first_unique (r ∷ rs) [] p s t d = Perm.eq-nil p
  newest_first_unique (r ∷ rs) (x ∷ xs) p s t d =
      ap (λ y. y ∷ rs) same
      ∙ ap (◌∷◌ x) (
          newest_first_unique rs xs (Perm.cons_inv (subst (λ y. Perm (y ∷ rs) (x ∷ xs)) same p)) s.1
            t.1 (λ a b m k. d a b (mem-cons_of_mem r m) (mem-cons_of_mem r k)))
    where
      x_in : Mem x (r ∷ rs)
      x_in = Perm.subset (Perm.symm p) x mem-cons_self

      same : r ≡ x
      same = d r x mem-cons_self x_in (
          omega
            (arith, le-newest r x rs s x_in, le-newest x r xs t (Perm.subset p r mem-cons_self)))
