-- ===== src/Client/Requests.antt =====
-- Lines that a client sends, and what the server makes of them.
use Prim.Native.Char.{Char, code}
use Prim.Native.String.{String, ◌++◌}
use text.Mathlib.TextEquality.{eq_iff}
use text.Mathlib.TextLemmas.{append-ne-nil_of_right_ne-nil}
use orris.Prelude.{◌≡◌, refl, false, some, arith, ◌==◌, nat_eq, string_eq}
use orris.Storage.{op_set, op_delete}
use orris.Raft.State.{Node, get_state}
use orris.Client.Text.{split_n, is_command, is_space}
use orris.Client.Server.{answer_parts, Submit, written, found, answer, handle_line}
use orris.Client.Text.Split.{
  IsWord, IsTrimmed, IsTrimmed-append, trim_space-append, split_two, split_three, is_word-IsWord,
}

module _ (submit : Submit) (n : Node) where
  -- A line that begins with no white space is split as it is.
  handle_trimmed :
      (c : Char) (word rest : String)
      → is_space (code c) ≡ false
      → IsTrimmed rest
      → handle_line submit (String.◌∷◌ c word ++ rest) n
        ≡ answer_parts submit (split_n 3 (String.◌∷◌ c word ++ rest)) n
  unfolding handle_line
  handle_trimmed c word rest first h =
      let line = String.◌∷◌ c word ++ rest in
      let filled : (line == "") ≡ false =
        ground (arith, append-ne-nil_of_right_ne-nil (String.◌∷◌ c word) h.1, eq_iff line "") in
      rw (trim_space-append c word rest first h, filled) refl

  -- A line `SET key value`, with a key that has no space and a value that is not empty and ends in no
  -- white space, submits exactly this key and this value, and its answer says how the request ended.
  pub set_line :
      (key value : String)
      → IsWord key
      → IsTrimmed value
      → handle_line submit ("SET" ++ (" " ++ (key ++ (" " ++ value)))) n ≡ (
          let (m, err) = submit (record { op = op_set; key = key; value = value }) n in
          (m, some (written err)))
  unfolding answer is_command
  set_line key value hk hv =
      let args = IsTrimmed-append " " _ (IsTrimmed-append key _ (IsTrimmed-append " " value hv)) in
      rw
        (
          handle_trimmed "S" "ET" _ refl args,
          split_three "SET" key value (is_word-IsWord "SET" refl) hk,
        )
        refl

  -- A line `DELETE key`, with a key that is not empty and has no space and no white space at its end,
  -- submits the deletion of exactly this key, and its answer says how the request ended.
  delete_line :
      (key : String)
      → IsWord key
      → IsTrimmed key
      → handle_line submit ("DELETE" ++ (" " ++ key)) n ≡ (
          let (m, err) = submit (record { op = op_delete; key = key; value = "" }) n in
          (m, some (written err)))
  unfolding answer is_command
  delete_line key hk ht =
      rw
        (
          handle_trimmed "D" "ELETE" _ refl (IsTrimmed-append " " key ht),
          split_two "DELETE" key (is_word-IsWord "DELETE" refl) hk,
        )
        refl

  -- A line `GET key`, with a key that is not empty and has no space and no white space at its end, submits
  -- nothing and answers with what the node's own store has.
  get_line :
      (key : String)
      → IsWord key
      → IsTrimmed key
      → handle_line submit ("GET" ++ (" " ++ key)) n ≡ (n, some (found (get_state n key)))
  unfolding answer is_command
  get_line key hk ht =
      rw
        (
          handle_trimmed "G" "ET" _ refl (IsTrimmed-append " " key ht),
          split_two "GET" key (is_word-IsWord "GET" refl) hk,
        )
        refl
