-- ===== src/Tsdb/Pruning.antt =====
-- Pruning drops only points that have left the retention window, and bounds the series.
use ops_system.Prelude.{
  ℕ, zero, suc, ◌+◌, ◌≤◌, ◌≡◌, refl, String, List, [], ◌∷◌, ◌++◌, some, ◌⊎◌, inl, inr, Bool-cases,
  Option-cases, arith, leb, ltb, if◌then◌else◌, keep, length, drop, All, All-append, string_key,
  ◌==◌, eq_iff, ==_refl,
}
use ops_system.Assoc.{lookup-insert}
use ops_system.Tsdb.{Point, MemoryTsdb, first_valid, prune, series_at, series_key, write}

-- The points that a reader at time `n` still finds within the window.
abbrev pub recent : ℕ → ℕ → List Point → List Point
recent n retention = keep (λ p. leb n (p.time + retention))

recent-drop :
    (now n retention i : ℕ) (ps : List Point)
    → now ≤ n
    → first_valid now retention ps ≡ some i
    → recent n retention (drop i ps) ≡ recent n retention ps
unfolding first_valid
recent-drop now n retention i [] h e = cc
recent-drop now n retention zero (p ∷ ps) h e = refl
recent-drop now n retention (suc i) (p ∷ ps) h e = ground (arith, recent-drop now n retention i ps)

-- Pruning at `now` hides nothing from a reader of the window at `now` or later.
pub recent-prune :
    (now n retention : ℕ) (ps : List Point)
    → now ≤ n
    → recent n retention (prune now retention ps) ≡ recent n retention ps
unfolding prune
recent-prune now n retention ps h = elim (Bool-cases (ltb 300 (length ps))) [
  | inl full ↦ elim (Option-cases (first_valid now retention ps)) [
    | inl none_valid ↦ rw (full, none_valid)
    | inr (i, e) ↦ rw (full, e) (recent-drop now n retention i ps h e)
  ]
  | inr short ↦ rw short
]

abbrev pub IsSorted : List Point → Type 0
IsSorted [] = Unit
IsSorted (p ∷ ps) = All (λ (q : Point). p.time ≤ q.time) ps × IsSorted ps

-- Every point lies in the window at `now`.
abbrev pub AllValid : ℕ → ℕ → List Point → Type 0
AllValid now retention = All (λ (p : Point). now ≤ p.time + retention)

AllValid-of_first :
    (now retention : ℕ) (p : Point) (ps : List Point)
    → now ≤ p.time + retention
    → All (λ (q : Point). p.time ≤ q.time) ps
    → AllValid now retention ps
AllValid-of_first now retention p [] h a = tt
AllValid-of_first now retention p (q ∷ ps) h a =
    (omega arith, AllValid-of_first now retention p ps h a.1)

drop-AllValid :
    (now retention i : ℕ) (ps : List Point)
    → IsSorted ps
    → first_valid now retention ps ≡ some i
    → AllValid now retention (drop i ps)
unfolding first_valid
drop-AllValid now retention i [] s e = cc
drop-AllValid now retention zero (p ∷ ps) s e = ground (arith, AllValid-of_first now retention p ps)
drop-AllValid now retention (suc i) (p ∷ ps) s e =
    ground (arith, drop-AllValid now retention i ps s.1)

first_valid-append :
    (now retention : ℕ) (v : ℕ) (ps : List Point)
    → (i : ℕ) × (first_valid now retention (ps ++ record { time = now; value = v } ∷ []) ≡ some i)
unfolding first_valid
first_valid-append now retention v [] = (0, ground arith)
first_valid-append now retention v (p ∷ ps) = elim (Bool-cases (leb now (p.time + retention))) [
  | inl e ↦ (0, rw e)
  | inr e ↦ let (i, h) = first_valid-append now retention v ps in (suc i, rw (e, h))
]

IsSorted-append :
    (now v : ℕ) (ps : List Point)
    → IsSorted ps
    → All (λ (p : Point). p.time ≤ now) ps
    → IsSorted (ps ++ record { time = now; value = v } ∷ [])
IsSorted-append now v [] s h = (tt, tt)
IsSorted-append now v (p ∷ ps) s h = (
  All-append (λ (q : Point). p.time ≤ q.time) ps (record { time = now; value = v } ∷ []) s.0
      (h.0, tt),
  IsSorted-append now v ps s.1 h.1,
)

pub series_at-write :
    (now : ℕ) (ip metric : String) (val : ℕ) (j : String) (db : MemoryTsdb)
    → series_at j (write now ip metric val db) ≡ (
        if series_key metric ip == j
        then prune now db.retention (series_at j db ++ record { time = now; value = val } ∷ [])
        else series_at j db)
unfolding write
series_at-write now ip metric val j db = ground (
  arith,
  eq_iff (series_key metric ip) j,
  lookup-insert (series_key metric ip) j
      (prune now db.retention
        (series_at (series_key metric ip) db ++ record { time = now; value = val } ∷ []))
      db.series,
)

prune-bounded :
    (now retention val : ℕ) (ps : List Point)
    → IsSorted ps
    → All (λ (p : Point). p.time ≤ now) ps
    → let after = prune now retention (ps ++ record { time = now; value = val } ∷ []) in
      (length after ≤ 300) ⊎ AllValid now retention after
unfolding prune
prune-bounded now retention val ps s h =
    let points = ps ++ record { time = now; value = val } ∷ [] in
    let (i, e) = first_valid-append now retention val ps in
    elim (Bool-cases (ltb 300 (length points))) [
      | inl full ↦
          rw (full, e)
            (inr (drop-AllValid now retention i points (IsSorted-append now val ps s h) e))
      | inr short ↦ rw short (inl (ground arith))
    ]

-- A write by a clock that does not step back leaves the series of its key at most 300 points long,
-- or with no point older than the retention window.
pub write-bounded :
    (now : ℕ) (ip metric : String) (val : ℕ) (db : MemoryTsdb)
    → IsSorted (series_at (series_key metric ip) db)
    → All (λ (p : Point). p.time ≤ now) (series_at (series_key metric ip) db)
    → let after = series_at (series_key metric ip) (write now ip metric val db) in
      (length after ≤ 300) ⊎ AllValid now db.retention after
write-bounded now ip metric val db s h =
    rw (series_at-write now ip metric val (series_key metric ip) db, ==_refl (series_key metric ip))
      (prune-bounded now db.retention val (series_at (series_key metric ip) db) s h)
