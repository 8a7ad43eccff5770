-- ===== src/Control/Node/Fields.antt =====
-- The words of a STATUS answer.
use Prim.Native.String.{String, ◌++◌}
use text.Mathlib.TextLemmas.{append_assoc, append-ne-nil_of_right_ne-nil, cons-ne-nil}
use text.Mathlib.TextEquality.{eq_iff}
use orris.Prelude.{
  suc, ℕ, ◌≡◌, ◌≢◌, refl, ◌∙◌, ap, true, false, [], ◌∷◌, ℤ, pos, negsuc, length, arith, ◌==◌,
  string_eq,
}
use orris.Raft.State.{
  Node, NodeState, follower, candidate, leader, show, get_role, get_term, get_commit,
  get_last_applied, get_log_entries,
}
use orris.Client.Text.{format_nat, format_int}
use orris.Client.Server.{status_line}
use orris.Control.Text.{fields}
use orris.Control.Text.Cut.{
  IsSolid, is_solid, IsSolid-append, fields-part, fields_all, is_solid-IsSolid,
}
use orris.Control.Text.Decimal.{format_nat-IsNumeral, IsNumeral-IsSolid, format_nat-not_empty}

-- A word of a line.
abbrev IsField : String → Type 0
IsField s = IsSolid s × (s ≢ "")

format_nat-IsField : (n : ℕ) → IsField (format_nat n)
format_nat-IsField n =
    (IsNumeral-IsSolid (format_nat n) (format_nat-IsNumeral n), format_nat-not_empty n)

format_int-IsField : (z : ℤ) → IsField (format_int z)
unfolding format_int
format_int-IsField (pos n) = format_nat-IsField n
format_int-IsField (negsuc n) =
    let digits = format_nat-IsField (suc n) in
    (
      IsSolid-append "-" (format_nat (suc n)) (is_solid-IsSolid "-" refl) digits.0,
      append-ne-nil_of_right_ne-nil "-" digits.1,
    )

show-IsField : (s : NodeState) → IsField (show s)
unfolding show
show-IsField follower = (is_solid-IsSolid "FOLLOWER" refl, cons-ne-nil "F" "OLLOWER")
show-IsField candidate = (is_solid-IsSolid "CANDIDATE" refl, cons-ne-nil "C" "ANDIDATE")
show-IsField leader = (is_solid-IsSolid "LEADER" refl, cons-ne-nil "L" "EADER")

literal-IsField : (k : String) → is_solid k ≡ true → (k == "") ≡ false → IsField k
literal-IsField k solid some_text =
    (is_solid-IsSolid k solid, λ e. ground (arith, some_text, e, eq_iff k ""))

-- A value, and the name of the next one.
value_name :
    (v k rest : String)
    → IsField v
    → IsField k
    → fields (v ++ ((" " ++ (k ++ " ")) ++ rest)) ≡ v ∷ k ∷ fields rest
value_name v k rest (v_solid, v_some) (k_solid, k_some) =
    let text : (" " ++ (k ++ " ")) ++ rest ≡ " " ++ (k ++ (" " ++ rest)) =
      append_assoc " " (k ++ " ") rest ∙ ap (◌++◌ " ") (append_assoc k " " rest) in
    ap (λ s. fields (v ++ s)) text
    ∙ fields-part v (k ++ (" " ++ rest)) v_solid v_some
    ∙ ap (◌∷◌ v) (fields-part k rest k_solid k_some)

pub status_line-fields :
    (n : Node)
    → IsSolid n.id
    → n.id ≢ ""
    → fields (status_line n)
      ≡ "NODE"
        ∷ n.id
        ∷ "ROLE"
        ∷ get_role n
        ∷ "TERM"
        ∷ format_nat (get_term n)
        ∷ "COMMIT"
        ∷ format_int (get_commit n)
        ∷ "APPLIED"
        ∷ format_int (get_last_applied n)
        ∷ "LOGLEN"
        ∷ format_nat (length (get_log_entries n))
        ∷ []
unfolding get_role
status_line-fields n solid named =
    let (node_solid, node_some) = literal-IsField "NODE" refl refl in
    let (last_solid, last_some) = format_nat-IsField (length (get_log_entries n)) in
    ap fields (append_assoc "NODE" " " _)
    ∙ fields-part "NODE" _ node_solid node_some
    ∙ ap (◌∷◌ "NODE") (
        value_name n.id "ROLE" _ (solid, named) (literal-IsField "ROLE" refl refl)
        ∙ ap (λ r. n.id ∷ "ROLE" ∷ r)
            (value_name (get_role n) "TERM" _ (show-IsField n.state)
                (literal-IsField "TERM" refl refl)
              ∙ ap (λ r. get_role n ∷ "TERM" ∷ r)
                  (value_name (format_nat (get_term n)) "COMMIT" _ (format_nat-IsField (get_term n))
                      (literal-IsField "COMMIT" refl refl)
                    ∙ ap (λ r. format_nat (get_term n) ∷ "COMMIT" ∷ r)
                        (value_name (format_int (get_commit n)) "APPLIED" _
                            (format_int-IsField (get_commit n))
                            (literal-IsField "APPLIED" refl refl)
                          ∙ ap (λ r. format_int (get_commit n) ∷ "APPLIED" ∷ r)
                              (value_name (format_int (get_last_applied n)) "LOGLEN" _
                                  (format_int-IsField (get_last_applied n))
                                  (literal-IsField "LOGLEN" refl refl)
                                ∙ ap (λ r. format_int (get_last_applied n) ∷ "LOGLEN" ∷ r)
                                    (fields_all _ last_solid last_some))))))
