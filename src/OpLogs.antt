-- ===== src/OpLogs.antt =====
-- internal/master/manager/log_manager.go: the table sys_op_logs. `fault` is a statement that SQLite
-- refuses. A page and a page's size are not negative.
pub mod Paging
pub mod Api
use ops_system.Prelude.{
  ℕ, zero, suc, ◌+◌, ◌-◌, ◌*◌, String, List, [], ◌∷◌, ◌++◌, Option, none, some, Bool, true, false,
  ◌==◌, string_key, if◌then◌else◌, eqb, leb, ◌&&◌, ◌||◌, keep, length, take, drop,
}
use Prim.Native.Char.{code}
use Prim.Native.String.{◌++◌ as append}
use ops_system.Protocol.{OpLog, LogQueryResp}

pub record LogManager : Type 0 where
  pub last_id : ℕ
  pub sys_op_logs : List OpLog

-- the goroutine of RecordLog; an error is dropped
unfoldable pub insert_log :
    Bool → ℕ → String → String → String → String → String → String → LogManager → LogManager
insert_log fault now operator action target_type target_name detail status lm =
    if fault then lm else record {
      last_id = lm.last_id + 1;
      sys_op_logs =
          lm.sys_op_logs
          ++ record {
            id = lm.last_id + 1;
            operator = operator;
            action = action;
            target_type = target_type;
            target_name = target_name;
            detail = detail;
            status = status;
            create_time = now;
          }
            ∷ [];
    }

-- SQLite's LIKE takes the ASCII letters as equal in both cases
abbrev pub lower_code : ℕ → ℕ
lower_code k = if leb 65 k && leb k 90 then k + 32 else k

-- a test on a text or on what follows some of its characters
unfoldable pub at_some_end : (String → Bool) → String → Bool
at_some_end test String.[] = test String.[]
at_some_end test (String.◌∷◌ c s) = let later = at_some_end test s in test (String.◌∷◌ c s) || later

abbrev pub like_char : ℕ → (String → Bool) → String → Bool
like_char k rest String.[] = false
like_char k rest (String.◌∷◌ d s) =
    let after = rest s in (eqb k 95 || eqb (lower_code k) (lower_code (code d))) && after

abbrev pub is_empty_text : String → Bool
is_empty_text String.[] = true
is_empty_text (String.◌∷◌ c s) = false

-- s LIKE pattern: % stands for any text and _ for any character
unfoldable pub like : String → String → Bool
unfolding at_some_end
like String.[] s = is_empty_text s
like (String.◌∷◌ c pattern) s =
    if eqb (code c) 37 then at_some_end (like pattern) s else like_char (code c) (like pattern) s

-- WHERE action LIKE ? OR target_name LIKE ? OR operator LIKE ?, where there is a keyword
unfoldable pub matches_keyword : String → OpLog → Bool
unfolding like
matches_keyword keyword l =
    if keyword == ""
    then true
    else like (append "%" (append keyword "%")) l.action
      || like (append "%" (append keyword "%")) l.target_name
      || like (append "%" (append keyword "%")) l.operator

-- The rows of the query, before LIMIT and OFFSET. `order` is the query's ORDER BY create_time DESC: in
-- which order it gives rows of the same second is up to SQLite.
unfoldable pub matching_logs : (List OpLog → List OpLog) → String → LogManager → List OpLog
unfolding matches_keyword
matching_logs order keyword lm = order (keep (matches_keyword keyword) lm.sys_op_logs)

-- SQLite takes a negative OFFSET, that of page 0, as 0
unfoldable pub get_logs :
    (List OpLog → List OpLog) → Bool → ℕ → ℕ → String → LogManager → Option LogQueryResp
unfolding matching_logs matches_keyword
get_logs order fault page page_size keyword lm =
    if fault
    then none
    else some (record {
      total = length (keep (matches_keyword keyword) lm.sys_op_logs);
      list = take page_size (drop ((page - 1) * page_size) (matching_logs order keyword lm));
    })
