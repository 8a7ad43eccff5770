-- ===== src/Control/Start.antt =====
pub mod Peers
pub mod Leaders
-- `clusterStart` and `clusterStartSingleNode` of cmd/orrisctl/main.go, and what cmd/orrisd/main.go makes
-- of the arguments. Processes and files are left out.
use Prim.Native.String.{String, ◌++◌}
use orris.Prelude.{
  ℕ, zero, suc, ◌+◌, Bool, true, false, Option, none, some, List, [], ◌∷◌, ◌++◌ as append, foldl,
  map, if◌then◌else◌, ◌==◌, string_eq, nat_eq, ℤ, pos, ◌+ℤ◌, beq_ℤ, Map, insert, leb_ℤ, ltb_ℤ,
}
use orris.Client.Text.{join, format_nat, format_int}
use orris.Control.Text.{split_on, split_n_on}

-- The arguments of one `orrisd` process.
pub record Launch : Type 0 where
  pub id : String
  pub addr : String
  pub client : String
  pub peers : String
  pub dir : String
  pub log_file : String

abbrev pub peer_id : ℕ → String
peer_id j = "node" ++ format_nat j

abbrev pub peer_addr : ℕ → String
peer_addr j = "127.0.0.1:" ++ format_nat (8000 + j)

-- `node%d=127.0.0.1:%d`
abbrev pub peer_arg : ℕ → String
peer_arg j = peer_id j ++ ("=" ++ peer_addr j)

-- `for j := 1; j <= totalCount; j++`, from `j` on, with `k` rounds to go.
unfoldable pub peers_list : ℤ → ℕ → ℕ → List String
peers_list i j zero = []
peers_list i j (suc k) =
    let rest = peers_list i (suc j) k in if beq_ℤ (pos j) i then rest else peer_arg j ∷ rest

abbrev pub launch : ℤ → ℕ → Launch
launch i total = record {
  id = "node" ++ format_int i;
  addr = "127.0.0.1:" ++ format_int (pos 8000 +ℤ i);
  client = "127.0.0.1:" ++ format_int (pos 9000 +ℤ i);
  peers = join "," (peers_list i 1 total);
  dir = "./data/node" ++ format_int i;
  log_file = "node" ++ (format_int i ++ ".log");
}

-- The nodes that `clusterStart(count)` starts, in this order: three, if the count is below one.
unfoldable pub launches : ℕ → ℕ → ℕ → List Launch
launches total j zero = []
launches total j (suc k) = launch (pos j) total ∷ launches total (suc j) k

abbrev pub start_count : ℤ → ℕ
start_count (pos (suc n)) = suc n
start_count _ = 3

unfoldable pub cluster_start : ℤ → List Launch
cluster_start count = launches (start_count count) 1 (start_count count)

-- cmd/orrisd: `peers[parts[0]] = parts[1]` for each part of the flag that has a "=".
abbrev pub add_peer : Map String → List String → Map String
add_peer peers (id ∷ addr ∷ []) = insert id addr peers
add_peer peers _ = peers

abbrev pub add_part : Map String → String → Map String
add_part peers p = add_peer peers (split_n_on "=" 2 p)

unfoldable pub parse_peers : String → Map String
parse_peers flag = if flag == "" then [] else foldl add_part [] (split_on "," flag)
