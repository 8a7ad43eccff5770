-- ===== src/Client/Answers.antt =====
-- What every line is answered: `handleClient` of internal/client/server.go against a table of the commands.
use Prim.Native.Char.{Char, code}
use Prim.Native.String.{String, ◌++◌}
use orris.Prelude.{
  ◌<◌, ◌≡◌, refl, sym, subst, true, false, Bool, ◌||◌, ◌⊎◌, inl, inr, Option, none, some, List, [],
  ◌∷◌, arith, ◌==◌, nat_eq, string_eq, Bool-cases, Option-cases, length, if◌then◌else◌,
}
use orris.Storage.{op_set, op_delete}
use orris.Raft.State.{ClientReq, Node, get_state, get_all_keys, get_log_entries}
use orris.Client.Text.{trim_space, split_n, is_command}
use orris.Client.Server.{
  Submit, written, request, status_line, leader_line, keys_line, logs_line, answer_set,
  answer_delete, answer_get, answer_parts, answer, handle_line,
}

-- The parts of a line: the command and at most two more, none of a blank line.
abbrev pub words : String → List String
words text = if trim_space text == "" then [] else split_n 3 (trim_space text)

abbrev is_deletion : String → Bool
is_deletion cmd = is_command cmd "DELETE" || is_command cmd "DEL"

-- The parts ask for a write: SET with a key and a value, or DELETE with a key.
abbrev pub IsAssignment : List String → ClientReq → Type 0
IsAssignment (cmd ∷ key ∷ value ∷ _) req =
    (is_command cmd "SET" ≡ true) × (req ≡ record { op = op_set; key = key; value = value })
IsAssignment _ req = ⊥

abbrev pub IsDeletion : List String → ClientReq → Type 0
IsDeletion (cmd ∷ key ∷ _) req =
    (is_deletion cmd ≡ true) × (req ≡ record { op = op_delete; key = key; value = "" })
IsDeletion _ req = ⊥

abbrev pub IsWrite : List String → ClientReq → Type 0
IsWrite parts req = IsAssignment parts req ⊎ IsDeletion parts req

-- The answers to all other lines.
pub data Reply (n : Node) : List String → Option String → Type 0 where
  blank : Reply n [] none
  pong :
      (cmd : String) (args : List String)
      → is_command cmd "PING" ≡ true
      → Reply n (cmd ∷ args) (some "PONG")
  stored :
      (cmd key value : String) (rest : List String)
      → is_command cmd "GET" ≡ true
      → get_state n key ≡ some value
      → Reply n (cmd ∷ key ∷ rest) (some ("VALUE " ++ value))
  absent :
      (cmd key : String) (rest : List String)
      → is_command cmd "GET" ≡ true
      → get_state n key ≡ none
      → Reply n (cmd ∷ key ∷ rest) (some "ERR NOT_FOUND")
  no_key :
      (cmd : String) → is_command cmd "GET" ≡ true → Reply n (cmd ∷ []) (some "ERR INVALID_ARGS")
  no_value :
      (cmd : String) (args : List String)
      → is_command cmd "SET" ≡ true
      → length args < 2
      → Reply n (cmd ∷ args) (some "ERR INVALID_ARGS")
  no_target : (cmd : String) → is_deletion cmd ≡ true → Reply n (cmd ∷ []) (some "ERR INVALID_ARGS")
  status :
      (cmd : String) (args : List String)
      → is_command cmd "STATUS" ≡ true
      → Reply n (cmd ∷ args) (some (status_line n))
  role :
      (cmd : String) (args : List String)
      → is_command cmd "LEADER" ≡ true
      → Reply n (cmd ∷ args) (some (leader_line n))
  keys :
      (cmd : String) (args : List String)
      → is_command cmd "KEYS" ≡ true
      → Reply n (cmd ∷ args) (some (keys_line (get_all_keys n)))
  logs :
      (cmd : String) (args : List String)
      → is_command cmd "LOGS" ≡ true
      → Reply n (cmd ∷ args) (some (logs_line (get_log_entries n)))
  unknown :
      (cmd : String) (args : List String)
      → (is_command cmd "PING"
          || is_command cmd "SET"
          || is_deletion cmd
          || is_command cmd "GET"
          || is_command cmd "STATUS"
          || is_command cmd "LEADER"
          || is_command cmd "KEYS"
          || is_command cmd "LOGS")
        ≡ false
      → Reply n (cmd ∷ args) (some "ERR UNKNOWN_CMD")

-- A word is not two commands that begin with different letters.
is_command-other :
    (word : String) (c d : Char) (s t : String)
    → (code c == code d) ≡ false
    → is_command word (String.◌∷◌ c s) ≡ true
    → is_command word (String.◌∷◌ d t) ≡ false
unfolding is_command
is_command-other String.[] c d s t differ h = refl
is_command-other (String.◌∷◌ w word) c d s t differ h = ground (arith, differ, h)

module _ (submit : Submit) (n : Node) where
  -- How a request ended, in the answer.
  abbrev pub Ended : Option String → Option String → Type 0
  Ended none reply = reply ≡ some "OK COMMITTED"
  Ended (some message) reply = reply ≡ some ("ERR " ++ message)

  -- A write is submitted, once, and the answer says how it ended.
  abbrev pub Submitted : ClientReq → Node × Option String → Type 0
  Submitted req r = (r.0 ≡ (submit req n).0) × Ended (submit req n).1 r.1

  request-Submitted : (req : ClientReq) → Submitted req (request submit req n)
  request-Submitted req = (refl, ended (submit req n).1)
    where
      ended : (err : Option String) → Ended err (some (written err))
      ended none = refl
      ended (some message) = refl

  set-Submitted :
      (cmd key value : String) (rest : List String)
      → is_command cmd "SET" ≡ true
      → Submitted
          (record { op = op_set; key = key; value = value })
          (answer submit cmd (key ∷ value ∷ rest) n)
  unfolding answer
  set-Submitted cmd key value rest is_set =
      rw (is_command-other cmd "S" "P" "ET" "ING" refl is_set, is_set) (request-Submitted _)

  deletion-others :
      (cmd : String)
      → is_deletion cmd ≡ true
      → (is_command cmd "PING" ≡ false) × (is_command cmd "SET" ≡ false)
  deletion-others cmd h = elim (Bool-cases (is_command cmd "DELETE")) [
    | inl long ↦ (
      is_command-other cmd "D" "P" "ELETE" "ING" refl long,
      is_command-other cmd "D" "S" "ELETE" "ET" refl long,
    )
    | inr other ↦
        let short : is_command cmd "DEL" ≡ true = ground (arith, h, other) in
        (
          is_command-other cmd "D" "P" "EL" "ING" refl short,
          is_command-other cmd "D" "S" "EL" "ET" refl short,
        )
  ]

  deletion-Submitted :
      (cmd key : String) (rest : List String)
      → is_deletion cmd ≡ true
      → Submitted
          (record { op = op_delete; key = key; value = "" })
          (answer submit cmd (key ∷ rest) n)
  unfolding answer
  deletion-Submitted cmd key rest deletes =
      let (no_ping, no_set) = deletion-others cmd deletes in
      rw (no_ping, no_set, deletes) (request-Submitted _)

  written-Submitted :
      (parts : List String) (req : ClientReq)
      → IsWrite parts req
      → Submitted req (answer_parts submit parts n)
  written-Submitted (cmd ∷ key ∷ value ∷ rest) req (inl (is_set, same)) =
      rw same (set-Submitted cmd key value rest is_set)
  written-Submitted (cmd ∷ key ∷ rest) req (inr (deletes, same)) =
      rw same (deletion-Submitted cmd key rest deletes)
  written-Submitted [] req (inl never) = absurd never
  written-Submitted [] req (inr never) = absurd never
  written-Submitted (cmd ∷ []) req (inl never) = absurd never
  written-Submitted (cmd ∷ []) req (inr never) = absurd never
  written-Submitted (cmd ∷ key ∷ []) req (inl never) = absurd never

  -- The node as it was, and an answer of the table.
  abbrev pub Replied : List String → Node × Option String → Type 0
  Replied parts r = (r.0 ≡ n) × Reply n parts r.1

  abbrev NoWrite : List String → Type 0
  NoWrite parts = (req : ClientReq) → ¬ IsWrite parts req

  set-Replied :
      (cmd : String) (args : List String)
      → is_command cmd "SET" ≡ true
      → NoWrite (cmd ∷ args)
      → Replied (cmd ∷ args) (answer_set submit args n)
  set-Replied cmd [] h none_asked = (refl, no_value cmd [] h (omega arith))
  set-Replied cmd (key ∷ []) h none_asked = (refl, no_value cmd (key ∷ []) h (omega arith))
  set-Replied cmd (key ∷ value ∷ rest) h none_asked = absurd (none_asked _ (inl (h, refl)))

  deletion-Replied :
      (cmd : String) (args : List String)
      → is_deletion cmd ≡ true
      → NoWrite (cmd ∷ args)
      → Replied (cmd ∷ args) (answer_delete submit args n)
  deletion-Replied cmd [] h none_asked = (refl, no_target cmd h)
  deletion-Replied cmd (key ∷ rest) h none_asked = absurd (none_asked _ (inr (h, refl)))

  get-Replied :
      (cmd : String) (args : List String)
      → is_command cmd "GET" ≡ true
      → Replied (cmd ∷ args) (answer_get submit args n)
  get-Replied cmd [] h = (refl, no_key cmd h)
  get-Replied cmd (key ∷ rest) h = (
    refl,
    elim (Option-cases (get_state n key)) [
      | inl none_there ↦ rw none_there (absent cmd key rest h none_there)
      | inr (value, there) ↦ rw there (stored cmd key value rest h there)
    ],
  )

  answer-Replied :
      (cmd : String) (args : List String)
      → NoWrite (cmd ∷ args)
      → Replied (cmd ∷ args) (answer submit cmd args n)
  unfolding answer
  answer-Replied cmd args none_asked = elim (Bool-cases (is_command cmd "PING")) [
    | inl e ↦ rw e (refl, pong cmd args e)
    | inr ping ↦ rw ping (elim (Bool-cases (is_command cmd "SET")) [
      | inl e ↦ rw e (set-Replied cmd args e none_asked)
      | inr set ↦ rw set (elim (Bool-cases (is_deletion cmd)) [
        | inl e ↦ rw e (deletion-Replied cmd args e none_asked)
        | inr del ↦ rw del (elim (Bool-cases (is_command cmd "GET")) [
          | inl e ↦ rw e (get-Replied cmd args e)
          | inr get ↦ rw get (elim (Bool-cases (is_command cmd "STATUS")) [
            | inl e ↦ rw e (refl, status cmd args e)
            | inr stat ↦ rw stat (elim (Bool-cases (is_command cmd "LEADER")) [
              | inl e ↦ rw e (refl, role cmd args e)
              | inr lead ↦ rw lead (elim (Bool-cases (is_command cmd "KEYS")) [
                | inl e ↦ rw e (refl, keys cmd args e)
                | inr key ↦ rw key (elim (Bool-cases (is_command cmd "LOGS")) [
                  | inl e ↦ rw e (refl, logs cmd args e)
                  | inr log ↦
                      rw log (
                        refl,
                        unknown cmd args (rw (ping, set, del, get, stat, lead, key, log) refl),
                      )
                ])
              ])
            ])
          ])
        ])
      ])
    ])
  ]

  parts-Replied :
      (parts : List String) → NoWrite parts → Replied parts (answer_parts submit parts n)
  parts-Replied [] none_asked = (refl, blank)
  parts-Replied (cmd ∷ args) none_asked = answer-Replied cmd args none_asked

  handle_line-parts :
      (text : String) → handle_line submit text n ≡ answer_parts submit (words text) n
  unfolding handle_line
  handle_line-parts text = elim (Bool-cases (trim_space text == "")) [
    | inl empty ↦ rw empty refl
    | inr filled ↦ rw filled refl
  ]

  -- A line that is SET with a key and a value, or DELETE or DEL with a key, submits exactly this write, and is
  -- answered with how the request ended. Any other line leaves the node as it was, and its answer is that of the
  -- table `Reply`: nothing for a blank line, and otherwise a text by the command and the node's state.
  pub handle_line-Answers :
      (text : String)
      → ((req : ClientReq) → IsWrite (words text) req → Submitted req (handle_line submit text n))
        × (((req : ClientReq) → ¬ IsWrite (words text) req)
            → Replied (words text) (handle_line submit text n))
  handle_line-Answers text =
      let whole = sym (handle_line-parts text) in
      (
        λ req asked. subst (Submitted req) whole (written-Submitted (words text) req asked),
        λ none_asked. subst (Replied (words text)) whole (parts-Replied (words text) none_asked),
      )
