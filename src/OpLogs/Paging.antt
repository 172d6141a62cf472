-- ===== src/OpLogs/Paging.antt =====
-- The pages of the operation log, one after the other, are the whole log.
use mathlib.Core.List.{Perm}
use mathlib.Core.List.Perm
use ops_system.Prelude.{
  ℕ, zero, suc, ◌+◌, ◌-◌, ◌*◌, ◌≤◌, String, ◌≡◌, refl, ap, sym, ◌∙◌, List, [], ◌∷◌, ◌++◌, Option,
  none, some, false, arith, keep, length, take, drop,
}
use ops_system.Table.{insert_desc, order_desc}
use ops_system.Table.Order.{
  order_desc-perm, IsNewestFirst, order_desc-IsNewestFirst, IsOrderDesc, HasDistinctTimes,
  newest_first_unique,
}
use ops_system.Protocol.{OpLog, LogQueryResp}
use ops_system.OpLogs.{LogManager, matches_keyword, matching_logs, get_logs}

module _ {ℓ} {A : Type ℓ} where
  take-sum : (n m k : ℕ) (xs : List A) → n ≡ m + k → take n xs ≡ take m xs ++ take k (drop m xs)
  take-sum n zero k xs e = ap (λ (j : ℕ). take j xs) (omega arith)
  take-sum zero (suc m) k xs e = absurd (omega arith)
  take-sum (suc n) (suc m) k [] e = nil_pages k
    where
      nil_pages : (j : ℕ) → ◌≡◌ {A = List A} [] (take j [])
      nil_pages zero = refl
      nil_pages (suc j) = refl
  take-sum (suc n) (suc m) k (x ∷ xs) e = ap (◌∷◌ x) (take-sum n m k xs (omega arith))

  take-all : (n : ℕ) (xs : List A) → length xs ≤ n → take n xs ≡ xs
  take-all zero [] h = refl
  take-all zero (x ∷ xs) h = absurd (omega arith)
  take-all (suc n) [] h = refl
  take-all (suc n) (x ∷ xs) h = ap (◌∷◌ x) (take-all n xs (omega arith))

abbrev pub entries : Option LogQueryResp → List OpLog
entries none = []
entries (some r) = r.list

-- the entries of the pages from 1 to n, where the query of page k has the order that `orders k` is
abbrev pub pages : (ℕ → List OpLog → List OpLog) → ℕ → ℕ → String → LogManager → List OpLog
pages orders zero page_size keyword lm = []
pages orders (suc n) page_size keyword lm =
    pages orders n page_size keyword lm
    ++ entries (get_logs (orders (suc n)) false (suc n) page_size keyword lm)

abbrev pub time_of : OpLog → ℕ
time_of l = l.create_time

-- the lines that match, in the one order that there is
abbrev listed : String → LogManager → List OpLog
listed keyword lm = order_desc time_of (keep (matches_keyword keyword) lm.sys_op_logs) []

matching_logs-listed :
    (order : List OpLog → List OpLog) (keyword : String) (lm : LogManager)
    → IsOrderDesc time_of order
    → HasDistinctTimes time_of (keep (matches_keyword keyword) lm.sys_op_logs)
    → matching_logs order keyword lm ≡ listed keyword lm
unfolding matching_logs
matching_logs-listed order keyword lm o d = sym (
    newest_first_unique time_of (listed keyword lm) (order found)
      (Perm.trans (order_desc-perm time_of found) (Perm.symm (o found).0))
      (order_desc-IsNewestFirst time_of found [] tt) (o found).1
      (λ a b m k.
        d a b (Perm.subset (order_desc-perm time_of found) a m)
          (Perm.subset (order_desc-perm time_of found) b k)))
  where
    found : List OpLog
    found = keep (matches_keyword keyword) lm.sys_op_logs

pages-take :
    (orders : ℕ → List OpLog → List OpLog) (n page_size : ℕ) (keyword : String) (lm : LogManager)
    → ((k : ℕ) → IsOrderDesc time_of (orders k))
    → HasDistinctTimes time_of (keep (matches_keyword keyword) lm.sys_op_logs)
    → pages orders n page_size keyword lm ≡ take (n * page_size) (listed keyword lm)
unfolding get_logs
pages-take orders zero page_size keyword lm o d =
    ap (λ (j : ℕ). take j (listed keyword lm)) none_before
  where
    none_before : 0 ≡ 0 * page_size
    none_before = omega arith
pages-take orders (suc n) page_size keyword lm o d =
    ap
      (λ (l : List OpLog).
        l ++ entries (get_logs (orders (suc n)) false (suc n) page_size keyword lm))
      (pages-take orders n page_size keyword lm o d)
    ∙ ap
        (λ (l : List OpLog).
          take (n * page_size) logs ++ take page_size (drop ((suc n - 1) * page_size) l))
        (matching_logs-listed (orders (suc n)) keyword lm (o (suc n)) d)
    ∙ ap (λ (j : ℕ). take (n * page_size) logs ++ take page_size (drop (j * page_size) logs)) before
    ∙ sym (take-sum (suc n * page_size) (n * page_size) page_size logs (grind arith))
  where
    logs : List OpLog
    logs = listed keyword lm

    before : suc n - 1 ≡ n
    before = omega arith

length-insert_desc :
    (l : OpLog) (logs : List OpLog) → length (insert_desc time_of l logs) ≡ suc (length logs)
unfolding insert_desc
length-insert_desc l [] = refl
length-insert_desc l (x ∷ logs) = ground (arith, length-insert_desc l logs)

length-order_desc :
    (logs sorted : List OpLog)
    → length (order_desc time_of logs sorted) ≡ length logs + length sorted
unfolding order_desc
length-order_desc [] sorted = omega arith
length-order_desc (l ∷ logs) sorted =
    length-order_desc logs (insert_desc time_of l sorted)
    ∙ omega (arith, length-insert_desc l sorted)

abbrev pub total_of : Option LogQueryResp → ℕ
total_of none = 0
total_of (some r) = r.total

-- While no line is added, and where the pages from 1 to n have room for the total that a query
-- gives and no two different lines that match the keyword were recorded in the same second, the pages,
-- one after the other, are the log lines that match, each as often as the table has it, the latest
-- first, whatever order each query gives to equal times. (GetLogs orders by the second alone, so
-- without that condition a line can be on two pages, and another on none.)
pub get_logs-pages :
    (orders : ℕ → List OpLog → List OpLog) (n page_size : ℕ) (keyword : String) (lm : LogManager)
    → ((k : ℕ) → IsOrderDesc time_of (orders k))
    → HasDistinctTimes time_of (keep (matches_keyword keyword) lm.sys_op_logs)
    → total_of (get_logs (orders 1) false 1 page_size keyword lm) ≤ n * page_size
    → Perm (pages orders n page_size keyword lm) (keep (matches_keyword keyword) lm.sys_op_logs)
      × IsNewestFirst time_of (pages orders n page_size keyword lm)
get_logs-pages orders n page_size keyword lm o d h =
    rw all_pages (order_desc-perm time_of found, order_desc-IsNewestFirst time_of found [] tt)
  where
    found : List OpLog
    found = keep (matches_keyword keyword) lm.sys_op_logs

    total : length found ≤ n * page_size
    total = unfold get_logs in h

    enough : length (listed keyword lm) ≤ n * page_size
    enough = omega (arith, total, length-order_desc found [])

    all_pages : pages orders n page_size keyword lm ≡ listed keyword lm
    all_pages =
        pages-take orders n page_size keyword lm o d
        ∙ take-all (n * page_size) (listed keyword lm) enough
