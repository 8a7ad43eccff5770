-- ===== src/Control/Command/Counts.antt =====
-- The numbers that commands are called with.
use Prim.Native.String.{String}
use orris.Prelude.{
  ℕ, ◌<ℤ◌, Bool, ◌||◌, Option, none, some, List, [], ◌∷◌, arith, ℤ, pos, ltb_ℤ, ltb_ℤ→lt, inl, inr,
  Bool-cases, if_both, ◌==◌, string_eq, get_elem?,
}
use orris.Client.Text.{trim_space}
use orris.Control.Text.{atoi, trim_prefix, fields}
use orris.Control.Command.{
  switch, Command, start_cluster, bench, again, unknown, positive_or, read_count, count_arg,
  wal_command, cluster_command, main_cases, main_command, set_command, get_command, delete_command,
  repl_cases, command_of, repl_line,
}

-- A cluster has a node, and a benchmark has writes and tasks.
abbrev pub IsRunnable : Command → Type 0
IsRunnable (start_cluster count) = pos 0 <ℤ count
IsRunnable (bench total concurrency) = (pos 0 <ℤ total) × (pos 0 <ℤ concurrency)
IsRunnable _ = Unit

positive_or-positive :
    (count : ℤ) (read : Option ℤ) → pos 0 <ℤ count → pos 0 <ℤ positive_or count read
positive_or-positive count none h = h
positive_or-positive count (some c) h = elim (Bool-cases (ltb_ℤ (pos 0) c)) [
  | inl above ↦ rw above (ltb_ℤ→lt (pos 0) c above)
  | inr other ↦ rw other h
]

read_count-positive :
    (count : ℤ) (read : Option String) → pos 0 <ℤ count → pos 0 <ℤ read_count count read
read_count-positive count none h = h
read_count-positive count (some s) h = positive_or-positive count (atoi s) h

count_arg-positive :
    (count : ℤ) (args : List String) (i : ℕ) → pos 0 <ℤ count → pos 0 <ℤ count_arg count args i
unfolding count_arg
count_arg-positive count args i h = read_count-positive count (get_elem? args i) h

AllRunnable : List (Bool × Command) → Type 0
AllRunnable [] = Unit
AllRunnable ((test, command) ∷ cases) = IsRunnable command × AllRunnable cases

switch-IsRunnable :
    (cases : List (Bool × Command)) (other : Command)
    → AllRunnable cases
    → IsRunnable other
    → IsRunnable (switch cases other)
unfolding AllRunnable
switch-IsRunnable [] other h k = k
switch-IsRunnable ((test, command) ∷ cases) other (first, h) k =
    if_both IsRunnable test command (switch cases other) first (switch-IsRunnable cases other h k)

module _ (to_upper to_lower : String → String) where
  wal_command-IsRunnable :
      (target : Option String) → IsRunnable (wal_command to_upper to_lower target)
  wal_command-IsRunnable none = tt
  wal_command-IsRunnable (some target) = tt

  set_command-IsRunnable : (parts : List String) → IsRunnable (set_command to_upper to_lower parts)
  set_command-IsRunnable [] = tt
  set_command-IsRunnable (_ ∷ []) = tt
  set_command-IsRunnable (_ ∷ key ∷ []) = tt
  set_command-IsRunnable (_ ∷ key ∷ value ∷ values) = tt

  get_command-IsRunnable : (parts : List String) → IsRunnable (get_command to_upper to_lower parts)
  get_command-IsRunnable [] = tt
  get_command-IsRunnable (_ ∷ []) = tt
  get_command-IsRunnable (_ ∷ key ∷ parts) = tt

  delete_command-IsRunnable :
      (parts : List String) → IsRunnable (delete_command to_upper to_lower parts)
  delete_command-IsRunnable [] = tt
  delete_command-IsRunnable (_ ∷ []) = tt
  delete_command-IsRunnable (_ ∷ key ∷ parts) = tt

  cluster_command-IsRunnable :
      (name : Option String) (args : List String)
      → IsRunnable (cluster_command to_upper to_lower name args)
  unfolding cluster_command
  cluster_command-IsRunnable none args = tt
  cluster_command-IsRunnable (some name) args =
      let start = count_arg-positive (pos 3) args 2 (omega arith) in ground (arith, start)

  -- Whatever the arguments are, `main` starts clusters of at least one node, and runs benchmarks of at least one write and one task.
  pub main_command-IsRunnable :
      (name : String) (rest : List String) (addr : String) (node_addrs : List String)
      → IsRunnable (main_command to_upper to_lower name rest addr node_addrs)
  unfolding main_command main_cases AllRunnable
  main_command-IsRunnable name rest addr node_addrs =
      let args = name ∷ rest in
      let start = count_arg-positive (pos 3) args 1 (omega arith) in
      let total = count_arg-positive (pos 50) args 1 (omega arith) in
      let tasks = count_arg-positive (pos 5) args 2 (omega arith) in
      let wal = wal_command-IsRunnable (get_elem? args 1) in
      let cluster = cluster_command-IsRunnable (get_elem? args 1) args in
      switch-IsRunnable (main_cases to_upper to_lower name rest) _
        (
          start,
          (
            tt,
            (
              tt,
              (
                tt,
                (
                  tt,
                  (
                    wal,
                    (
                      (total, tasks),
                      (tt, (tt, (tt, (tt, (tt, (tt, (cluster, (tt, (tt, (tt, tt)))))))))),
                    ),
                  ),
                ),
              ),
            ),
          ),
        )
        tt

  command_of-IsRunnable : (parts : List String) → IsRunnable (command_of to_upper to_lower parts)
  unfolding repl_cases AllRunnable
  command_of-IsRunnable [] = tt
  command_of-IsRunnable (name ∷ rest) =
      let parts = name ∷ rest in
      let start = count_arg-positive (pos 3) parts 1 (omega arith) in
      let total = count_arg-positive (pos 50) parts 1 (omega arith) in
      let tasks = count_arg-positive (pos 5) parts 2 (omega arith) in
      let wal = wal_command-IsRunnable (get_elem? parts 1) in
      let set = set_command-IsRunnable parts in
      let get = get_command-IsRunnable parts in
      let delete = delete_command-IsRunnable parts in
      switch-IsRunnable (repl_cases to_upper to_lower name rest) unknown
        (
          tt,
          (
            tt,
            (
              start,
              (
                tt,
                (
                  tt,
                  (
                    tt,
                    (
                      tt,
                      (
                        tt,
                        (
                          tt,
                          (
                            tt,
                            (
                              tt,
                              (
                                tt,
                                (
                                  wal,
                                  (tt, (set, (get, (delete, ((total, tasks), (tt, (tt, tt))))))),
                                ),
                              ),
                            ),
                          ),
                        ),
                      ),
                    ),
                  ),
                ),
              ),
            ),
          ),
        )
        tt

  -- The same for every line of the interactive mode.
  pub repl_line-IsRunnable : (text : String) → IsRunnable (repl_line to_upper to_lower text)
  unfolding repl_line
  repl_line-IsRunnable text =
      let line = trim_space (trim_prefix (trim_prefix (trim_space text) "orris>") "orris >") in
      if_both IsRunnable (trim_space text == "" || line == "") again
        (command_of to_upper to_lower (fields line)) tt (command_of-IsRunnable (fields line))
