-- ===== src/Control/Command.antt =====
pub mod Counts
-- The switches of `main` and of `runREPL` in cmd/orrisctl/main.go: which function a command line calls, with
-- which arguments. strings.ToUpper and strings.ToLower are parameters.
use Prim.Native.String.{String, ◌++◌}
use orris.Prelude.{
  ℕ, zero, suc, Bool, true, false, ◌||◌, ◌&&◌, Option, none, some, List, [], ◌∷◌, if◌then◌else◌,
  ◌==◌, string_eq, ℤ, pos, negsuc, ltb_ℤ, get_elem?, ltb, length,
}
use orris.Client.Text.{join, trim_space}
use orris.Control.Text.{atoi, or_else, trim_prefix, has_prefix, fields}

-- A call, and what a line of the interactive mode does besides calling one.
pub data Command : Type 0 where
  start_cluster : ℤ → Command
  stop_cluster kill_leader ping show_leader status keys logs all_wals demo dashboard repl : Command
  kill : String → Command
  spawn : ℤ → Command
  node_wal : String → Command
  bench : ℤ → ℤ → Command
  routed : String → Command
  single : String → String → Command
  set_key : String → String → Command
  get_key : String → Command
  delete_key : String → Command
  usage : String → Command
  help refresh quit again unknown : Command

-- `if c, err := strconv.Atoi(s); err == nil && c > 0 { count = c }`
abbrev pub positive_or : ℤ → Option ℤ → ℤ
positive_or count none = count
positive_or count (some c) = if ltb_ℤ (pos 0) c then c else count

abbrev pub read_count : ℤ → Option String → ℤ
read_count count none = count
read_count count (some s) = positive_or count (atoi s)

-- The number at a position of the arguments, if there is one above zero.
unfoldable pub count_arg : ℤ → List String → ℕ → ℤ
count_arg count args i = read_count count (get_elem? args i)

-- An address of the list; there is one, since strings.Split gives at least one part.
abbrev pub first_addr : List String → String
first_addr [] = ""
first_addr (addr ∷ addrs) = addr

abbrev pub payload : String → List String → String
payload cmd [] = cmd
payload cmd (arg ∷ args) = cmd ++ (" " ++ join " " (arg ∷ args))

-- `clusterKillTarget` and `displayNodeWAL`: a name without "node" gets it.
unfoldable pub node_name : String → String
node_name target = if has_prefix target "node" then target else "node" ++ target

-- The first case whose test holds.
abbrev pub switch : List (Bool × Command) → Command → Command
switch [] other = other
switch ((test, command) ∷ cases) other =
    let next = switch cases other in if test then command else next

module _ (to_upper to_lower : String → String) where
  -- `clusterKillTarget`: the leader, or the process of a node.
  unfoldable pub kill_target : String → Option String
  kill_target target =
      let name = to_lower (trim_space target) in
      if name == "leader" then none else some (node_name name)

  -- The node of `displayNodeWAL`.
  unfoldable pub wal_target : String → String
  wal_target target = node_name (to_lower (trim_space target))

  -- The number of "node3" or "3", and one if there is none.
  abbrev pub spawn_number : Option String → ℤ
  spawn_number none = pos 1
  spawn_number (some s) = or_else (pos 1) (atoi (trim_prefix (to_lower s) "node"))

  abbrev pub wal_command : Option String → Command
  wal_command none = all_wals
  wal_command (some target) = node_wal target

  unfoldable pub cluster_command : Option String → List String → Command
  cluster_command none args = usage "orrisctl cluster [start [N]|stop|kill-leader]"
  cluster_command (some name) args =
      let sub = to_upper name in
      if sub == "START" || sub == "UP"
      then start_cluster (count_arg (pos 3) args 2)
      else if sub == "STOP" || sub == "DOWN"
      then stop_cluster
      else if sub == "KILL-LEADER"
      then kill_leader
      else usage "orrisctl cluster [start [N]|stop|kill-leader]"

  -- The cases of `main`, on its first argument and the others.
  unfoldable pub main_cases : String → List String → List (Bool × Command)
  main_cases name rest =
      let cmd = to_upper name in
      let args = name ∷ rest in
      (cmd == "START" || cmd == "UP", start_cluster (count_arg (pos 3) args 1))
      ∷ (cmd == "STOP" || cmd == "DOWN", stop_cluster)
      ∷ (cmd == "KILL-LEADER" || cmd == "KILLLEADER", kill_leader)
      ∷ (cmd == "KILL", kill (or_else "leader" (get_elem? args 1)))
      ∷ (
        cmd == "SPAWN" || cmd == "START-NODE" || cmd == "RESTART",
        spawn (spawn_number (get_elem? args 1)),
      )
      ∷ (cmd == "WALS" || cmd == "WAL", wal_command (get_elem? args 1))
      ∷ (
        cmd == "BENCH" || cmd == "BENCHMARK",
        bench (count_arg (pos 50) args 1) (count_arg (pos 5) args 2),
      )
      ∷ (cmd == "PING", ping)
      ∷ (cmd == "LEADER", show_leader)
      ∷ (cmd == "STATUS" || cmd == "INFO", status)
      ∷ (cmd == "KEYS", keys)
      ∷ (cmd == "LOGS" || cmd == "LOG", logs)
      ∷ (cmd == "DEMO", demo)
      ∷ (cmd == "CLUSTER", cluster_command (get_elem? args 1) args)
      ∷ (
        cmd == "RUN" || cmd == "LIVE" || cmd == "DASHBOARD" || cmd == "TOP" || cmd == "UI",
        dashboard,
      )
      ∷ (cmd == "REPL" || cmd == "INTERACTIVE", repl)
      ∷ (cmd == "SET" || cmd == "DELETE" || cmd == "DEL", routed (cmd ++ (" " ++ join " " rest)))
      ∷ []

  -- `main`, with the addresses of its flags.
  unfoldable pub main_command : String → List String → String → List String → Command
  main_command name rest addr node_addrs =
      switch (main_cases name rest)
        (single (if addr == "" then first_addr node_addrs else addr) (payload (to_upper name) rest))

  abbrev pub set_command : List String → Command
  set_command (_ ∷ key ∷ value ∷ values) = set_key key (join " " (value ∷ values))
  set_command _ = usage "set <key> <value>"

  abbrev pub get_command : List String → Command
  get_command (_ ∷ key ∷ _) = get_key key
  get_command _ = usage "get <key>"

  abbrev pub delete_command : List String → Command
  delete_command (_ ∷ key ∷ _) = delete_key key
  delete_command _ = usage "del <key>"

  -- The cases of `runREPL` on the words of a line, the first of them `name`.
  unfoldable pub repl_cases : String → List String → List (Bool × Command)
  repl_cases name rest =
      let cmd = to_lower name in
      let parts = name ∷ rest in
      (cmd == "exit" || cmd == "quit" || cmd == "q", quit)
      ∷ (cmd == "clear" || cmd == "cls", refresh)
      ∷ (cmd == "start" || cmd == "up" || cmd == "scale", start_cluster (count_arg (pos 3) parts 1))
      ∷ (cmd == "stop" || cmd == "down", stop_cluster)
      ∷ (cmd == "kill-leader" || cmd == "killleader", kill_leader)
      ∷ (cmd == "kill", kill (or_else "leader" (get_elem? parts 1)))
      ∷ (
        cmd == "spawn" || cmd == "start-node" || cmd == "restart-node" || cmd == "restart",
        spawn (spawn_number (get_elem? parts 1)),
      )
      ∷ (cmd == "ping", ping)
      ∷ (cmd == "leader", show_leader)
      ∷ (cmd == "status" || cmd == "info", status)
      ∷ (cmd == "keys" || cmd == "dump", keys)
      ∷ (cmd == "wals", all_wals)
      ∷ (cmd == "wal", wal_command (get_elem? parts 1))
      ∷ (cmd == "watch" || cmd == "top", dashboard)
      ∷ (cmd == "set", set_command parts)
      ∷ (cmd == "get", get_command parts)
      ∷ (cmd == "del" || cmd == "delete", delete_command parts)
      ∷ (
        cmd == "bench" || cmd == "benchmark",
        bench (count_arg (pos 50) parts 1) (count_arg (pos 5) parts 2),
      )
      ∷ (cmd == "logs" || cmd == "log", logs)
      ∷ (cmd == "help" || cmd == "?", help)
      ∷ []

  abbrev pub command_of : List String → Command
  command_of [] = again
  command_of (name ∷ rest) = switch (repl_cases name rest) unknown

  -- A line of the interactive mode: a prompt that was pasted with it goes, and a blank line is read again.
  unfoldable pub repl_line : String → Command
  repl_line text =
      let line = trim_space (trim_prefix (trim_prefix (trim_space text) "orris>") "orris >") in
      if trim_space text == "" || line == "" then again else command_of (fields line)
