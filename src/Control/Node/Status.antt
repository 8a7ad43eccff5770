-- ===== src/Control/Node/Status.antt =====
-- The control tool reads the status of the node that answers it.
use Prim.Native.String.{String}
use text.Mathlib.TextEquality.{eq_iff}
use orris.Prelude.{
  ℕ, ◌≡◌, ◌≢◌, refl, subst, ◌<◌, ◌∙◌, ap, true, false, Option, some, [], ◌∷◌, ℤ, pos, length, arith,
  ◌==◌, string_eq, inr,
}
use orris.Raft.State.{
  Node, NodeState, follower, candidate, leader, show, get_role, get_term, get_commit,
  get_last_applied, get_log_entries,
}
use orris.Client.Text.{
  format_nat, format_int, trim_space, trim_left, trim_right, split_n, cut, is_command,
}
use orris.Client.Server.{Submit, status_line, handle_line, answer}
use orris.Control.Text.Cut.{Avoids, IsSolid}
use orris.Control.Node.Fields.{status_line-fields}
use orris.Control.Node.{NodeInfo, offline, read_status, set_field, query_node, atoi_or_zero}
use orris.Control.Node.Items.{
  format_nat-Avoids, format_int-Avoids, atoi_or_zero-format_nat, atoi_or_zero-format_int,
}

-- Not the name of a field.
abbrev IsOther : String → Type 0
IsOther s =
    (s ≢ "NODE") × (s ≢ "ROLE") × (s ≢ "TERM") × (s ≢ "COMMIT") × (s ≢ "APPLIED") × (s ≢ "LOGLEN")

set_field-skip : (s v : String) (info : NodeInfo) → IsOther s → set_field s v info ≡ info
unfolding set_field
set_field-skip s v info (a, b, c, d, e, f) = ground (
  arith,
  eq_iff s "NODE",
  eq_iff s "ROLE",
  eq_iff s "TERM",
  eq_iff s "COMMIT",
  eq_iff s "APPLIED",
  eq_iff s "LOGLEN",
)

Avoids-differs : (k : ℕ) (s t : String) → Avoids k s → ¬ Avoids k t → s ≢ t
Avoids-differs k s t h other e = other (subst (Avoids k) e h)

-- No capital letters, no name.
IsOther-of_Avoids : (s : String) → ((k : ℕ) → 57 < k → Avoids k s) → IsOther s
IsOther-of_Avoids s h = (
  Avoids-differs 78 s "NODE" (h 78 (omega arith)) (λ a. a.0 refl),
  Avoids-differs 82 s "ROLE" (h 82 (omega arith)) (λ a. a.0 refl),
  Avoids-differs 84 s "TERM" (h 84 (omega arith)) (λ a. a.0 refl),
  Avoids-differs 67 s "COMMIT" (h 67 (omega arith)) (λ a. a.0 refl),
  Avoids-differs 65 s "APPLIED" (h 65 (omega arith)) (λ a. a.0 refl),
  Avoids-differs 76 s "LOGLEN" (h 76 (omega arith)) (λ a. a.0 refl),
)

format_nat-IsOther : (n : ℕ) → IsOther (format_nat n)
format_nat-IsOther n =
    IsOther-of_Avoids (format_nat n) (λ k above. format_nat-Avoids k n (inr above))

minus-Avoids : (k : ℕ) → 57 < k → Avoids k "-"
minus-Avoids k above = ((λ e. absurd (omega (arith, e))), tt)

format_int-IsOther : (z : ℤ) → IsOther (format_int z)
format_int-IsOther z =
    IsOther-of_Avoids (format_int z)
      (λ k above. format_int-Avoids k z (inr above) (minus-Avoids k above))

differ : (s t : String) → (s == t) ≡ false → s ≢ t
differ s t h e = ground (arith, h, e, eq_iff s t)

show-IsOther : (s : NodeState) → IsOther (show s)
unfolding show
show-IsOther follower = (
  differ "FOLLOWER" "NODE" refl,
  differ "FOLLOWER" "ROLE" refl,
  differ "FOLLOWER" "TERM" refl,
  differ "FOLLOWER" "COMMIT" refl,
  differ "FOLLOWER" "APPLIED" refl,
  differ "FOLLOWER" "LOGLEN" refl,
)
show-IsOther candidate = (
  differ "CANDIDATE" "NODE" refl,
  differ "CANDIDATE" "ROLE" refl,
  differ "CANDIDATE" "TERM" refl,
  differ "CANDIDATE" "COMMIT" refl,
  differ "CANDIDATE" "APPLIED" refl,
  differ "CANDIDATE" "LOGLEN" refl,
)
show-IsOther leader = (
  differ "LEADER" "NODE" refl,
  differ "LEADER" "ROLE" refl,
  differ "LEADER" "TERM" refl,
  differ "LEADER" "COMMIT" refl,
  differ "LEADER" "APPLIED" refl,
  differ "LEADER" "LOGLEN" refl,
)

-- What a name that is not "NODE" leaves alone.
set_field-id :
    (s v : String) (info : NodeInfo)
    → s ≢ "NODE"
    → ((set_field s v info).id ≡ info.id) × ((set_field s v info).online ≡ info.online)
unfolding set_field
set_field-id s v info other = ground (arith, other, eq_iff s "NODE")

set_node : (v : String) (info : NodeInfo) → set_field "NODE" v info ≡ record info { id = v }
unfolding set_field
set_node v info = refl

set_role : (v : String) (info : NodeInfo) → set_field "ROLE" v info ≡ record info { role = v }
unfolding set_field
set_role v info = refl

set_term :
    (v : String) (info : NodeInfo) → set_field "TERM" v info ≡ record info { term = atoi_or_zero v }
unfolding set_field
set_term v info = refl

set_commit :
    (v : String) (info : NodeInfo)
    → set_field "COMMIT" v info ≡ record info { commit_index = atoi_or_zero v }
unfolding set_field
set_commit v info = refl

set_applied :
    (v : String) (info : NodeInfo)
    → set_field "APPLIED" v info ≡ record info { last_applied = atoi_or_zero v }
unfolding set_field
set_applied v info = refl

set_log_len :
    (v : String) (info : NodeInfo)
    → set_field "LOGLEN" v info ≡ record info { log_len = atoi_or_zero v }
unfolding set_field
set_log_len v info = refl

-- What is read where a value follows each name.
read_status-fields :
    (info : NodeInfo) (id role term commit applied len : String)
    → IsOther role
    → IsOther term
    → IsOther commit
    → IsOther applied
    → read_status
        ("NODE" ∷ id ∷ "ROLE" ∷ role ∷ "TERM" ∷ term ∷ "COMMIT" ∷ commit ∷ "APPLIED" ∷ applied
          ∷ "LOGLEN" ∷ len ∷ [])
        info
      ≡ record (set_field id "ROLE" (record info { id = id })) {
        role = role;
        term = atoi_or_zero term;
        commit_index = atoi_or_zero commit;
        last_applied = atoi_or_zero applied;
        log_len = atoi_or_zero len;
      }
unfolding read_status
read_status-fields info id role term commit applied len hr ht hc ha =
    rw
      (
        set_node,
        set_role,
        set_term,
        set_commit,
        set_applied,
        set_log_len,
        set_field-skip role "TERM" _ hr,
        set_field-skip term "COMMIT" _ ht,
        set_field-skip commit "APPLIED" _ hc,
        set_field-skip applied "LOGLEN" _ ha,
      )
      refl

-- What a node answers to a command of the control tool.
abbrev pub served : Submit → Node → String → Option String
served submit n cmd = (handle_line submit cmd n).1

pub served_status : (submit : Submit) (n : Node) → served submit n "STATUS" ≡ some (status_line n)
unfolding handle_line answer trim_space trim_left trim_right split_n cut is_command
served_status submit n = refl

-- The control tool shows of a node what the node reports.
abbrev pub Shows : Node → NodeInfo → Type 0
Shows n info =
    (info.online ≡ true)
    × (info.id ≡ n.id)
    × (info.role ≡ get_role n)
    × (info.term ≡ pos (get_term n))
    × (info.commit_index ≡ get_commit n)
    × (info.last_applied ≡ get_last_applied n)
    × (info.log_len ≡ pos (length (get_log_entries n)))

-- `queryNode` on a node that answers shows its name, its role, its term, both indices and the length of its
-- log, if the node's name is one word that is not "NODE".
pub query_node-Shows :
    (submit : Submit) (n : Node) (addr : String)
    → IsSolid n.id
    → n.id ≢ ""
    → n.id ≢ "NODE"
    → Shows n (query_node addr (served submit n))
unfolding query_node get_role
query_node-Shows submit n addr solid named other =
    let start : NodeInfo = record (offline addr) { online = true } in
    let parts = status_line-fields n solid named in
    let read =
      ap (λ ws. read_status ws start) parts
      ∙ read_status-fields start n.id (get_role n) _ _ _ _ (show-IsOther n.state)
          (format_nat-IsOther (get_term n)) (format_int-IsOther (get_commit n))
          (format_int-IsOther (get_last_applied n)) in
    let (id, online) = set_field-id n.id "ROLE" (record start { id = n.id }) other in
    rw (served_status submit n, read)
      ((
        online,
        id,
        refl,
        atoi_or_zero-format_nat (get_term n),
        atoi_or_zero-format_int (get_commit n),
        atoi_or_zero-format_int (get_last_applied n),
        atoi_or_zero-format_nat (length (get_log_entries n)),
      ))
