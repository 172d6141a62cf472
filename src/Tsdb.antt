-- ===== src/Tsdb.antt =====
-- internal/master/monitor/store.go: the in-memory time series. `Write` and `QueryRange` hold the
-- lock throughout, so a call is one step; `now` is the clock that Write reads.
pub mod Pruning
pub mod Range
use Prim.Native.String.{◌++◌ as append}
use ops_system.Prelude.{
  ℕ, zero, suc, ◌+◌, String, List, [], ◌∷◌, ◌++◌, Option, none, some, Bool, ◌&&◌, string_key, ltb,
  leb, if◌then◌else◌, keep, length, drop,
}
use ops_system.Assoc.{Assoc, lookup, insert}
use ops_system.Float64.{Float64}
use mathlib.Core.Option

pub record Point : Type 0 where
  pub time : ℕ
  pub value : Float64

pub record MemoryTsdb : Type 0 where
  pub series : Assoc String (List Point)
  pub retention : ℕ  -- seconds

unfoldable pub new_memory_tsdb : MemoryTsdb
new_memory_tsdb = record { series = []; retention = 600 }

-- fmt.Sprintf("%s|%s", metric, ip)
unfoldable pub series_key : String → String → String
series_key metric ip = append metric (append "|" ip)

-- the loop that looks for the first point at or after the cutoff `now - retention`; none is a loop
-- that ends without a break
unfoldable pub first_valid : ℕ → ℕ → List Point → Option ℕ
first_valid now retention [] = none
first_valid now retention (p ∷ ps) =
    if leb now (p.time + retention) then some 0 else Option.map suc (first_valid now retention ps)

abbrev pub or_zero : Option ℕ → ℕ
or_zero none = 0
or_zero (some i) = i

unfoldable pub prune : ℕ → ℕ → List Point → List Point
unfolding first_valid
prune now retention points =
    if ltb 300 (length points)
    then drop (or_zero (first_valid now retention points)) points
    else points

-- tsdb.series[key], empty where the key is missing
abbrev pub or_empty : Option (List Point) → List Point
or_empty none = []
or_empty (some points) = points

abbrev pub series_at : String → MemoryTsdb → List Point
series_at key db = or_empty (lookup key db.series)

unfoldable pub write : ℕ → String → String → Float64 → MemoryTsdb → MemoryTsdb
write now ip metric val db =
    let key = series_key metric ip in
    record db {
      series =
          insert key
            (prune now db.retention (series_at key db ++ record { time = now; value = val } ∷ []))
            db.series;
    }

abbrev pub in_range : ℕ → ℕ → Point → Bool
in_range start end p = leb start p.time && leb p.time end

unfoldable pub query_range : String → String → ℕ → ℕ → MemoryTsdb → List Point
query_range metric ip start end db = elim (lookup (series_key metric ip) db.series) [
  | none ↦ []
  | some points ↦ keep (in_range start end) points
]
