-- ===== src/Client/Server.antt =====
-- `handleClient`: the answer to one line. The request to the consensus layer, its wait included, is a
-- parameter: other goroutines decide how it ends. An answer is written with a newline behind it. The
-- getters of one answer lock the node one by one; here they read the same node.
use Prim.Native.String.{String, ◌++◌}
use orris.Prelude.{
  Option, none, some, List, [], ◌∷◌, Map, map, length, if◌then◌else◌, ◌==◌, string_eq, ◌||◌,
}
use orris.Storage.{LogEntry, op_set, op_delete}
use orris.Raft.State.{
  Node, ClientReq, get_state, get_role, get_term, get_commit, get_last_applied, get_log_entries,
  get_all_keys,
}
use orris.Client.Text.{trim_space, split_n, is_command, join, format_nat, format_int}

-- The error of a request, by its message; none is success.
abbrev pub Submit : Type 0
Submit = ClientReq → Node → Node × Option String

abbrev pub written : Option String → String
written none = "OK COMMITTED"
written (some message) = "ERR " ++ message

abbrev pub found : Option String → String
found none = "ERR NOT_FOUND"
found (some value) = "VALUE " ++ value

abbrev pub status_line : Node → String
status_line n =
    "NODE "
    ++ (n.id
        ++ (" ROLE "
            ++ (get_role n
                ++ (" TERM "
                    ++ (format_nat (get_term n)
                        ++ (" COMMIT "
                            ++ (format_int (get_commit n)
                                ++ (" APPLIED "
                                    ++ (format_int (get_last_applied n)
                                        ++ (" LOGLEN "
                                            ++ format_nat (length (get_log_entries n))))))))))))

abbrev pub leader_line : Node → String
leader_line n = "ROLE " ++ (get_role n ++ (" TERM " ++ format_nat (get_term n)))

abbrev pub key_item : String × String → String
key_item (k, v) = k ++ ("=" ++ v)

abbrev pub keys_line : Map String → String
keys_line [] = "KEYS (empty)"
keys_line (kv ∷ all) = "KEYS " ++ join " | " (map key_item (kv ∷ all))

abbrev pub log_item : LogEntry → String
log_item e =
    "["
    ++ (format_int e.index
        ++ ("]T"
            ++ (format_nat e.term
                ++ (":" ++ (e.operation ++ (":" ++ (e.key ++ ("=" ++ e.value))))))))

abbrev pub logs_line : List LogEntry → String
logs_line [] = "LOGS (empty)"
logs_line (e ∷ entries) = "LOGS " ++ join " | " (map log_item (e ∷ entries))

module _ (submit : Submit) where
  abbrev pub request : ClientReq → Node → Node × Option String
  request req n = let (m, err) = submit req n in (m, some (written err))

  abbrev pub answer_set : List String → Node → Node × Option String
  answer_set (key ∷ value ∷ _) n = request (record { op = op_set; key = key; value = value }) n
  answer_set _ n = (n, some "ERR INVALID_ARGS")

  abbrev pub answer_delete : List String → Node → Node × Option String
  answer_delete (key ∷ _) n = request (record { op = op_delete; key = key; value = "" }) n
  answer_delete _ n = (n, some "ERR INVALID_ARGS")

  abbrev pub answer_get : List String → Node → Node × Option String
  answer_get (key ∷ _) n = (n, some (found (get_state n key)))
  answer_get _ n = (n, some "ERR INVALID_ARGS")

  -- The switch, on the first part of the line and the others.
  unfoldable pub answer : String → List String → Node → Node × Option String
  answer cmd args n =
      if is_command cmd "PING"
      then (n, some "PONG")
      else if is_command cmd "SET"
      then answer_set args n
      else if is_command cmd "DELETE" || is_command cmd "DEL"
      then answer_delete args n
      else if is_command cmd "GET"
      then answer_get args n
      else if is_command cmd "STATUS"
      then (n, some (status_line n))
      else if is_command cmd "LEADER"
      then (n, some (leader_line n))
      else if is_command cmd "KEYS"
      then (n, some (keys_line (get_all_keys n)))
      else if is_command cmd "LOGS"
      then (n, some (logs_line (get_log_entries n)))
      else (n, some "ERR UNKNOWN_CMD")

  abbrev pub answer_parts : List String → Node → Node × Option String
  answer_parts [] n = (n, none)
  answer_parts (cmd ∷ args) n = answer cmd args n

  -- A blank line has no answer.
  unfoldable pub handle_line : String → Node → Node × Option String
  handle_line text n =
      let line = trim_space text in
      if line == "" then (n, none) else answer_parts (split_n 3 line) n
