-- ===== src/Examples/Lines.antt =====
-- Lines of the client protocol, with a consensus layer that takes every request at once.
use Prim.Native.String.{◌++◌}
use orris.Prelude.{◌≡◌, refl, none, some, arith, string_eq}
use text.Mathlib.TextEquality.{eq_iff}
use orris.Storage.{op_set}
use orris.Raft.State.{ClientReq}
use orris.Raft.Append.{push}
use orris.Raft.Client.{client_entry}
use orris.Client.Text.{trim_right}
use orris.Client.Text.Split.{IsTrimmed, is_word-IsWord}
use orris.Client.Server.{Submit, written, handle_line}
use orris.Client.Requests.{set_line}
use orris.Client.Answers.{words, IsWrite, Submitted, Replied, handle_line-Answers}
use orris.Examples.Nodes.{started}

abbrev pub takes : Submit
takes req n = (push (client_entry req n) n, none)

one_two-IsTrimmed : IsTrimmed "one two"
unfolding trim_right
one_two-IsTrimmed = (refl, λ e. absurd (ground (arith, e, eq_iff "one two" "")))

set_line_example : handle_line takes ("SET" ++ (" " ++ ("x" ++ (" " ++ "one two")))) started ≡ (
    let (m, err) = takes (record { op = op_set; key = "x"; value = "one two" }) started in
    (m, some (written err)))
set_line_example = set_line takes started "x" "one two" (is_word-IsWord "x" refl) one_two-IsTrimmed

-- The line asks for the deletion of "x".
handle_line-Answers_example :
    ((req : ClientReq)
      → IsWrite (words "  del x ") req
      → Submitted takes started req (handle_line takes "  del x " started))
    × (((req : ClientReq) → ¬ IsWrite (words "  del x ") req)
        → Replied takes started (words "  del x ") (handle_line takes "  del x " started))
handle_line-Answers_example = handle_line-Answers takes started "  del x "
