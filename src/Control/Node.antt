-- ===== src/Control/Node.antt =====
pub mod Items
pub mod Fields
pub mod Status
pub mod Logs
pub mod Keys
-- `queryNode`, `queryCluster` and `parseLogItem` of cmd/orrisctl/main.go. `sendRawCommand` is a parameter:
-- the line that answers a command, or none if there is an error. Latencies are left out.
use Prim.Native.String.{String}
use orris.Prelude.{
  ℕ, Bool, true, false, ◌||◌, not, Option, none, some, List, [], ◌∷◌, foldl, map, if◌then◌else◌,
  ◌==◌, string_eq, ℤ, pos, Map, insert,
}
use orris.Client.Text.{trim_space}
use orris.Control.Text.{
  split_on, split_n_on, trim_prefix, cut_prefix, cut_on, fields, atoi, or_else,
}

pub record NodeInfo : Type 0 where
  pub id : String
  pub addr : String
  pub online : Bool
  pub role : String
  pub term : ℤ
  pub commit_index : ℤ
  pub last_applied : ℤ
  pub log_len : ℤ
  pub keys : Map String
  pub logs : List String

abbrev pub offline : String → NodeInfo
offline addr = record {
  id = "";
  addr = addr;
  online = false;
  role = "";
  term = pos 0;
  commit_index = pos 0;
  last_applied = pos 0;
  log_len = pos 0;
  keys = [];
  logs = [];
}

-- `x, _ = strconv.Atoi(s)`
unfoldable pub atoi_or_zero : String → ℤ
atoi_or_zero s = or_else (pos 0) (atoi s)

-- The switch on `parts[i]`, with `parts[i+1]`.
unfoldable pub set_field : String → String → NodeInfo → NodeInfo
set_field name value info =
    if name == "NODE"
    then record info { id = value }
    else if name == "ROLE"
    then record info { role = value }
    else if name == "TERM"
    then record info { term = atoi_or_zero value }
    else if name == "COMMIT"
    then record info { commit_index = atoi_or_zero value }
    else if name == "APPLIED"
    then record info { last_applied = atoi_or_zero value }
    else if name == "LOGLEN"
    then record info { log_len = atoi_or_zero value }
    else info

unfoldable pub read_status : List String → NodeInfo → NodeInfo
read_status [] info = info
read_status (name ∷ []) info = info
read_status (name ∷ value ∷ rest) info = read_status (value ∷ rest) (set_field name value info)

-- `info.Keys[kv[0]] = kv[1]`, if there is a "=".
abbrev pub add_pair : Map String → List String → Map String
add_pair keys (key ∷ value ∷ []) = insert key value keys
add_pair keys _ = keys

abbrev pub shown_empty : String → Bool
shown_empty shown = shown == "(empty)" || shown == ""

abbrev pub add_item : Map String → String → Map String
add_item keys p = add_pair keys (split_n_on "=" 2 p)

abbrev pub split_pairs : String → Map String
split_pairs shown = if shown_empty shown then [] else foldl add_item [] (split_on " | " shown)

unfoldable pub read_keys : String → Map String
read_keys resp = split_pairs (trim_prefix resp "KEYS ")

abbrev pub split_items : String → List String
split_items shown = if shown_empty shown then [] else split_on " | " shown

unfoldable pub read_logs : String → List String
read_logs resp = split_items (trim_prefix resp "LOGS ")

abbrev pub keys_of : Option String → Map String
keys_of none = []
keys_of (some resp) = read_keys resp

abbrev pub logs_of : Option String → List String
logs_of none = []
logs_of (some resp) = read_logs resp

abbrev pub answered : String → (String → Option String) → Option String → NodeInfo
answered addr send none = offline addr
answered addr send (some resp) =
    let info = read_status (fields resp) (record (offline addr) { online = true }) in
    record info { keys = keys_of (send "KEYS"); logs = logs_of (send "LOGS") }

-- `send cmd` is the answer of the node.
unfoldable pub query_node : String → (String → Option String) → NodeInfo
query_node addr send = answered addr send (send "STATUS")

-- The tasks write to places of their own.
abbrev pub query_cluster : (String → String → Option String) → List String → List NodeInfo
query_cluster send addrs = map (λ addr. query_node addr (send addr)) addrs

pub record LogItem : Type 0 where
  pub index : ℤ
  pub term : ℤ
  pub op : String
  pub key : String
  pub val : String

abbrev pub no_item : LogItem
no_item = record { index = pos 0; term = pos 0; op = ""; key = ""; val = "" }

-- `kv[0]`, and `kv[1]` if there is a "=".
abbrev pub with_pair : LogItem → String × Option String → LogItem
with_pair item (key, none) = record item { key = key; val = "" }
with_pair item (key, some val) = record item { key = key; val = val }

abbrev pub item_parts : ℤ → List String → LogItem × Bool
item_parts index (term ∷ op ∷ payload ∷ []) = (
  with_pair (record no_item { index = index; term = atoi_or_zero (trim_prefix term "T"); op = op })
      (cut_on "=" payload),
  true,
)
item_parts index _ = (record no_item { index = index }, false)

abbrev pub bracketed : String × Option String → LogItem × Bool
bracketed (index, none) = (no_item, false)
bracketed (index, some rest) = item_parts (atoi_or_zero index) (split_n_on ":" 3 rest)

abbrev pub opened : Option String → LogItem × Bool
opened none = (no_item, false)
opened (some inside) = bracketed (cut_on "]" inside)

-- The item of a text, and whether it is one.
unfoldable pub parse_log_item : String → LogItem × Bool
parse_log_item raw = opened (cut_prefix "[" (trim_space raw))
