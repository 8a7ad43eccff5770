-- ===== src/Control/Node/Logs.antt =====
-- The control tool reads the log of the node that answers it.
use Prim.Native.String.{String, ◌++◌}
use text.Mathlib.TextLemmas.{append_assoc, cons-append}
use text.Mathlib.TextEquality.{eq_iff}
use orris.Prelude.{
  ◌≡◌, ◌≢◌, refl, subst, sym, ◌∙◌, ap, true, false, some, List, [], ◌∷◌, map, arith, inl, string_eq,
}
use orris.Storage.{LogEntry}
use orris.Raft.State.{Node, get_log_entries}
use orris.Client.Text.{
  join, format_nat, format_int, trim_right, trim_space, trim_left, split_n, cut, is_command,
}
use orris.Client.Server.{Submit, log_item, logs_line, handle_line, answer}
use orris.Control.Text.{trim_prefix, cut_prefix}
use orris.Control.Text.Cut.{Avoids, Avoids-append, lacks-Avoids, AllAvoid, split_on-join}
use orris.Control.Node.{query_node, shown_empty, split_items, read_logs, parse_log_item}
use orris.Control.Node.Items.{
  format_nat-Avoids, format_int-Avoids, trim_prefix-append, shown, parse_log_item-log_item,
}
use orris.Control.Node.Status.{served, served_status}

-- The texts of the entry are words, with no ":" in the operation and no "=" in the key.
pub record IsPlain (e : LogEntry) : Type 0 where
  pub op_word : Avoids 32 e.operation
  pub key_word : Avoids 32 e.key
  pub value_word : Avoids 32 e.value
  pub op : Avoids 58 e.operation
  pub key : Avoids 61 e.key
  pub trimmed : trim_right e.value ≡ e.value

abbrev pub AllPlain : List LogEntry → Type 0
AllPlain [] = Unit
AllPlain (e ∷ es) = IsPlain e × AllPlain es

log_item-Avoids : (e : LogEntry) → IsPlain e → Avoids 32 (log_item e)
log_item-Avoids e h =
    let both = Avoids-append 32 in
    let digits = format_nat-Avoids 32 e.term (inl (omega arith)) in
    let index = format_int-Avoids 32 e.index (inl (omega arith)) (lacks-Avoids 32 "-" refl) in
    let pair =
      both e.key ("=" ++ e.value) h.key_word
        (both "=" e.value (lacks-Avoids 32 "=" refl) h.value_word) in
    let colon = lacks-Avoids 32 ":" refl in
    let op = both e.operation _ h.op_word (both ":" _ colon pair) in
    both "[" _ (lacks-Avoids 32 "[" refl) (
      both (format_int e.index) _ index (
        both "]T" _ (lacks-Avoids 32 "]T" refl)
          (both (format_nat e.term) _ digits (both ":" _ colon op))))

items-AllAvoid : (es : List LogEntry) → AllPlain es → AllAvoid " " "| " (map log_item es)
items-AllAvoid [] h = tt
items-AllAvoid (e ∷ es) h = (log_item-Avoids e h.0, items-AllAvoid es h.1)

-- A text that starts with a bracket.
join-bracket :
    (s : String) (ss : List String)
    → (rest : String) × (join " | " (("[" ++ s) ∷ ss) ≡ String.◌∷◌ "[" rest)
unfolding join
join-bracket s [] = ("" ++ s, cons-append "[" "" s)
join-bracket s (t ∷ ss) =
    let more = " | " ++ join " | " (t ∷ ss) in
    ("" ++ (s ++ more), append_assoc "[" s more ∙ cons-append "[" "" (s ++ more))

-- Such a text is not what stands for an empty answer.
bracket-shown : (s rest : String) → s ≡ String.◌∷◌ "[" rest → shown_empty s ≡ false
bracket-shown s rest e =
    let first : ¬ Avoids 91 s = λ a. (subst (Avoids 91) e a).0 refl in
    let other : s ≢ "(empty)" =
      λ same. first (subst (Avoids 91) (sym same) (lacks-Avoids 91 "(empty)" refl)) in
    let some_text : s ≢ "" = λ same. first (subst (Avoids 91) (sym same) tt) in
    ground (arith, other, some_text, eq_iff s "(empty)", eq_iff s "")

read_logs-logs_line :
    (es : List LogEntry) → AllPlain es → read_logs (logs_line es) ≡ map log_item es
unfolding read_logs trim_prefix cut_prefix
read_logs-logs_line [] h = refl
read_logs-logs_line (e ∷ es) h =
    let items = map log_item (e ∷ es) in
    let (rest, bracket) = join-bracket _ (map log_item es) in
    let full : shown_empty (join " | " items) ≡ false =
      bracket-shown (join " | " items) rest bracket in
    ap split_items (trim_prefix-append "LOGS " (join " | " items))
    ∙ rw full (split_on-join " " "| " (log_item e) (map log_item es) (items-AllAvoid (e ∷ es) h))

served_logs :
    (submit : Submit) (n : Node) → served submit n "LOGS" ≡ some (logs_line (get_log_entries n))
unfolding handle_line answer trim_space trim_left trim_right split_n cut is_command
served_logs submit n = refl

items_parse :
    (es : List LogEntry)
    → AllPlain es
    → map parse_log_item (map log_item es) ≡ map (λ e. (shown e, true)) es
items_parse [] h = refl
items_parse (e ∷ es) h =
    rw (parse_log_item-log_item e h.0.op h.0.key h.0.trimmed)
      (ap (◌∷◌ (shown e, true)) (items_parse es h.1))

-- `queryNode` on a node that answers finds one text for each entry of its log, in order, and `parseLogItem` reads each of them as this entry,
-- if the entries' operations, keys and values are words without spaces, the operations have no ":", and the keys no "=".
pub query_node-logs :
    (submit : Submit) (n : Node) (addr : String)
    → AllPlain n.log
    → map parse_log_item (query_node addr (served submit n)).logs ≡ map (λ e. (shown e, true)) n.log
unfolding query_node get_log_entries
query_node-logs submit n addr plain =
    rw (served_status submit n, served_logs submit n, read_logs-logs_line n.log plain)
      (items_parse n.log plain)
