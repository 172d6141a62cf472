-- ===== src/Tsdb/Range.antt =====
-- QueryRange against the log of all writes.
use Prim.Native.String.{◌++◌ as append}
use text.Mathlib.TextLemmas.{append_cancel_left}
use ops_system.Prelude.{
  ℕ, ◌+◌, ◌≤◌, ◌≡◌, refl, sym, ap, ◌∙◌, String, List, [], ◌∷◌, ◌++◌, map, arith, keep, keep-append,
  All, string_key, ◌==◌, Bool-cases, inl, inr, ◌≢◌, ==_ne,
}
use ops_system.Assoc.{lookup}
use ops_system.Float64.{Float64}
use ops_system.Tsdb.{
  Point, MemoryTsdb, series_at, series_key, write, in_range, query_range, new_memory_tsdb,
}
use ops_system.Tsdb.Pruning.{recent, recent-prune, series_at-write}
use mathlib.Core.List.{append_assoc, append-nil}

-- One call of Write, with the clock that it read.
pub record WriteCall : Type 0 where
  pub at : ℕ
  pub ip : String
  pub metric : String
  pub val : Float64

-- oldest first
unfoldable pub run : List WriteCall → MemoryTsdb → MemoryTsdb
run [] db = db
run (w ∷ ws) db = run ws (write w.at w.ip w.metric w.val db)

abbrev pub to_point : WriteCall → Point
to_point w = record { time = w.at; value = w.val }

-- All that was ever written under a key.
abbrev pub log : String → List WriteCall → List Point
log key ws = map to_point (keep (λ w. series_key w.metric w.ip == key) ws)

-- The series of two addresses under one metric are different series.
pub series_key_inj :
    (metric ip ip' : String) → series_key metric ip ≡ series_key metric ip' → ip ≡ ip'
unfolding series_key
series_key_inj metric ip ip' h =
    append_cancel_left "|" ip ip' (append_cancel_left metric (append "|" ip) (append "|" ip') h)

recent-series_at-write :
    (key : String) (n : ℕ) (w : WriteCall) (db : MemoryTsdb)
    → w.at ≤ n
    → recent n db.retention (series_at key (write w.at w.ip w.metric w.val db))
      ≡ recent n db.retention (series_at key db ++ log key (w ∷ []))
recent-series_at-write key n w db h =
    rw (series_at-write w.at w.ip w.metric w.val key db)
      (elim (Bool-cases (series_key w.metric w.ip == key)) [
        | inl same ↦
            rw (same, recent-prune w.at n db.retention (series_at key db ++ to_point w ∷ []) h)
        | inr other ↦ rw (other, append-nil (series_at key db))
      ])

retention-write :
    (w : WriteCall) (db : MemoryTsdb) → (write w.at w.ip w.metric w.val db).retention ≡ db.retention
unfolding write
retention-write w db = refl

log-cons :
    (key : String) (w : WriteCall) (ws : List WriteCall)
    → log key (w ∷ ws) ≡ log key (w ∷ []) ++ log key ws
log-cons key w ws = ground arith

-- At the time `n` of the last write or later, the stored series shows the same recent points as the
-- log.
recent-series_at-run :
    (key : String) (n : ℕ) (ws : List WriteCall) (db : MemoryTsdb)
    → All (λ (w : WriteCall). w.at ≤ n) ws
    → recent n db.retention (series_at key (run ws db))
      ≡ recent n db.retention (series_at key db ++ log key ws)
unfolding run write
recent-series_at-run key n [] db h = rw (append-nil (series_at key db))
recent-series_at-run key n (w ∷ ws) db h =
    let now = recent n db.retention in
    recent-series_at-run key n ws (write w.at w.ip w.metric w.val db) h.1
    ∙ keep-append _ (series_at key (write w.at w.ip w.metric w.val db)) (log key ws)
    ∙ ap (λ ps. ps ++ now (log key ws)) (recent-series_at-write key n w db h.0)
    ∙ sym (keep-append _ (series_at key db ++ log key (w ∷ [])) (log key ws))
    ∙ ap now (
        append_assoc (series_at key db) (log key (w ∷ [])) (log key ws)
        ∙ ap (◌++◌ (series_at key db)) (sym (log-cons key w ws)))

keep-recent :
    (start end n retention : ℕ) (ps : List Point)
    → n ≤ start + retention
    → keep (in_range start end) (recent n retention ps) ≡ keep (in_range start end) ps
keep-recent start end n retention [] h = refl
keep-recent start end n retention (p ∷ ps) h = ground (arith, keep-recent start end n retention ps)

query_range-series_at :
    (metric ip : String) (start end : ℕ) (db : MemoryTsdb)
    → query_range metric ip start end db
      ≡ keep (in_range start end) (series_at (series_key metric ip) db)
unfolding query_range
query_range-series_at metric ip start end db = ground arith

-- After any history of writes up to the time `n`, also with a clock that stepped back in between, a
-- query that starts at most 600 seconds before `n` returns exactly the logged points of its series
-- in the range, in the order of the writes: what pruning dropped is never missed.
pub query_range-run :
    (ws : List WriteCall) (n : ℕ) (metric ip : String) (start end : ℕ)
    → All (λ (w : WriteCall). w.at ≤ n) ws
    → n ≤ start + 600
    → query_range metric ip start end (run ws new_memory_tsdb)
      ≡ keep (in_range start end) (log (series_key metric ip) ws)
unfolding new_memory_tsdb lookup
query_range-run ws n metric ip start end h window =
    let key = series_key metric ip in
    let db = run ws new_memory_tsdb in
    query_range-series_at metric ip start end db
    ∙ sym (keep-recent start end n 600 (series_at key db) window)
    ∙ ap (keep (in_range start end)) (recent-series_at-run key n ws new_memory_tsdb h)
    ∙ keep-recent start end n 600 (log key ws) window

-- Two addresses never share the points of a metric: a write for one address leaves every query for
-- the same metric of another address as it was.
pub query_range-write_ne :
    (now : ℕ) (ip ip' metric : String) (val : Float64) (start end : ℕ) (db : MemoryTsdb)
    → ip ≢ ip'
    → query_range metric ip' start end (write now ip metric val db)
      ≡ query_range metric ip' start end db
query_range-write_ne now ip ip' metric val start end db h =
    query_range-series_at metric ip' start end (write now ip metric val db)
    ∙ ap (keep (in_range start end)) (
        rw
          (
            series_at-write now ip metric val (series_key metric ip') db,
            ==_ne (series_key metric ip) (series_key metric ip')
                (λ e. h (series_key_inj metric ip ip' e)),
          )
          refl)
    ∙ sym (query_range-series_at metric ip' start end db)
