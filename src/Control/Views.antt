-- ===== src/Control/Views.antt =====
pub mod Highest
pub mod Wal
-- What cmd/orrisctl/main.go shows: `displayKeys`, `displayLogs`, the log table of `renderDashboard`, and `displayAllWALs`, up to the
-- layout. A payload that is longer than 32 bytes is cut when it is printed; here it is whole. The sort of package
-- slices is a parameter.
use Prim.Native.String.{String, ◌++◌}
use orris.Prelude.{
  ℕ, suc, ◌+◌, ◌-◌, Bool, true, false, not, ◌&&◌, ◌||◌, Option, none, some, List, [], ◌∷◌,
  if◌then◌else◌, ◌==◌, string_eq, nat_eq, ltb, ltb_ℤ, ℤ, pos, minus_one, length, drop, Map, lookup,
  insert,
}
use orris.Storage.{WalRecord, record_entry}
use orris.Control.Text.{or_else}
use orris.Control.Node.{NodeInfo, LogItem, parse_log_item}

-- `for _, n := range nodes`, with the highest commit index so far.
unfoldable pub highest_commit : ℤ → List NodeInfo → ℤ
highest_commit best [] = best
highest_commit best (n ∷ nodes) =
    highest_commit (if n.online && ltb_ℤ best n.commit_index then n.commit_index else best) nodes

unfoldable pub primary_logs : List String → List NodeInfo → List String
primary_logs best [] = best
primary_logs best (n ∷ nodes) =
    primary_logs (if n.online && ltb (length best) (length n.logs) then n.logs else best) nodes

pub record LogRow : Type 0 where
  pub item : LogItem
  pub payload : String
  pub committed : Bool

abbrev pub log_row : ℤ → LogItem → LogRow
log_row highest item = record {
  item = item;
  payload =
      if item.op == "DELETE" || item.op == "DEL" then item.key else item.key ++ (" = " ++ item.val);
  committed = not (ltb_ℤ highest item.index);
}

-- A text that is no item has no row.
abbrev pub add_row : ℤ → LogItem × Bool → List LogRow → List LogRow
add_row highest (item, ok) rows = if ok then log_row highest item ∷ rows else rows

unfoldable pub log_rows : ℤ → List String → List LogRow
log_rows highest [] = []
log_rows highest (raw ∷ logs) = add_row highest (parse_log_item raw) (log_rows highest logs)

-- `displayLogs`
unfoldable pub display_logs : List NodeInfo → List LogRow
display_logs nodes = log_rows (highest_commit minus_one nodes) (primary_logs [] nodes)

-- `primaryLogs[startIdx:]`, for six entries.
unfoldable pub recent : List String → List String
recent logs = let total = length logs in drop (if ltb 6 total then total - 6 else 0) logs

-- The log table of `renderDashboard`.
unfoldable pub dashboard_logs : List NodeInfo → List LogRow
dashboard_logs nodes = log_rows (highest_commit minus_one nodes) (recent (primary_logs [] nodes))

-- `allKeys[k][n.ID] = v`
abbrev pub add_value : String → Map (Map String) → String × String → Map (Map String)
add_value id all (key, value) = insert key (insert id value (or_else [] (lookup key all))) all

unfoldable pub add_values : String → Map String → Map (Map String) → Map (Map String)
add_values id [] all = all
add_values id (kv ∷ keys) all = add_values id keys (add_value id all kv)

unfoldable pub all_keys : List NodeInfo → Map (Map String) → Map (Map String)
all_keys [] all = all
all_keys (n ∷ nodes) all = all_keys nodes (if n.online then add_values n.id n.keys all else all)

-- `%s:%s` of a node that has the key.
abbrev pub add_shown : String → Option String → List String → List String
add_shown id none parts = parts
add_shown id (some value) parts = (id ++ (":" ++ value)) ∷ parts

unfoldable pub key_parts : Map String → List NodeInfo → List String
key_parts values [] = []
key_parts values (n ∷ nodes) =
    let rest = key_parts values nodes in
    if n.online then add_shown n.id (lookup n.id values) rest else rest

abbrev pub names : Map (Map String) → List String
names [] = []
names ((key, values) ∷ all) = key ∷ names all

unfoldable pub key_rows :
    Map (Map String) → List NodeInfo → List String → List (String × List String)
key_rows all nodes [] = []
key_rows all nodes (key ∷ keys) =
    (key, key_parts (or_else [] (lookup key all)) nodes) ∷ key_rows all nodes keys

-- `displayKeys`
unfoldable pub display_keys :
    (List String → List String) → List NodeInfo → List (String × List String)
display_keys sort nodes = let all = all_keys nodes [] in key_rows all nodes (sort (names all))

-- The last term and the number of entries that `displayAllWALs` shows of a file's records.
unfoldable pub last_term : ℕ → List WalRecord → ℕ
last_term best [] = best
last_term best (r ∷ records) = last_term (if ltb best r.term then r.term else best) records

unfoldable pub entries_count : List WalRecord → ℕ
entries_count [] = 0
entries_count (r ∷ records) =
    let rest = entries_count records in if r.type == record_entry then suc rest else rest
