-- ===== src/Control/Node/Keys.antt =====
-- The control tool reads the store of the node that answers it.
use Prim.Native.String.{String, ◌++◌}
use mathlib.Core.List.{append-nil, append_assoc}
use text.Mathlib.TextLemmas.{nil-append, cons-append, append_assoc as text_assoc}
use text.Mathlib.TextEquality.{eq_iff}
use orris.Prelude.{
  ◌≡◌, ◌≢◌, refl, subst, inl, inr, Bool-cases, sym, ◌∙◌, ap, false, some, List, [], ◌∷◌,
  ◌++◌ as append, map, foldl, arith, ◌==◌, string_eq, Map, insert,
}
use orris.Kv.{get_all, copy_into}
use orris.Raft.State.{Node, get_all_keys}
use orris.Client.Text.{join, trim_space, trim_left, trim_right, split_n, cut, is_command}
use orris.Client.Server.{Submit, key_item, keys_line, handle_line, answer}
use orris.Control.Text.{trim_prefix, cut_prefix}
use orris.Control.Text.Cut.{
  Avoids, Avoids-append, lacks-Avoids, AllAvoid, split_on-join, split_two_on,
}
use orris.Control.Node.{query_node, read_keys, split_pairs, shown_empty, add_item, add_pair}
use orris.Control.Node.Items.{trim_prefix-append}
use orris.Control.Node.Status.{served, served_status}

-- No other entry has this key.
abbrev Fresh : String → Map String → Type 0
Fresh key [] = Unit
Fresh key ((other, value) ∷ entries) = (other ≢ key) × Fresh key entries

-- As in a Go map.
abbrev IsDistinct : Map String → Type 0
IsDistinct [] = Unit
IsDistinct ((key, value) ∷ entries) = Fresh key entries × IsDistinct entries

-- Keys and values are words, and the keys have no "=".
abbrev pub AllWords : Map String → Type 0
AllWords [] = Unit
AllWords ((key, value) ∷ entries) =
    (Avoids 32 key × Avoids 32 value × Avoids 61 key) × AllWords entries

insert_new :
    (key value : String) (entries : Map String)
    → Fresh key entries
    → insert key value entries ≡ append entries ((key, value) ∷ [])
unfolding insert
insert_new key value [] h = refl
insert_new key value ((other, old) ∷ entries) h =
    let rest = insert_new key value entries h.1 in
    let differ = h.0 in ground (arith, rest, differ, eq_iff other key)

-- The keys to come are not there yet.
abbrev AllFresh : Map String → Map String → Type 0
AllFresh [] done = Unit
AllFresh ((key, value) ∷ entries) done = Fresh key done × AllFresh entries done

Fresh-more :
    (key other value : String) (done : Map String)
    → Fresh key done
    → other ≢ key
    → Fresh key (append done ((other, value) ∷ []))
Fresh-more key other value [] h differ = (differ, tt)
Fresh-more key other value ((first, old) ∷ done) (here, h) differ =
    (here, Fresh-more key other value done h differ)

AllFresh-more :
    (key value : String) (entries done : Map String)
    → AllFresh entries done
    → Fresh key entries
    → AllFresh entries (append done ((key, value) ∷ []))
AllFresh-more key value [] done h fresh = tt
AllFresh-more key value ((next, v) ∷ entries) done (here, h) (differ, fresh) = (
  Fresh-more next key value done here (λ e. differ (sym e)),
  AllFresh-more key value entries done h fresh,
)

AllFresh-nil : (entries : Map String) → AllFresh entries []
AllFresh-nil [] = tt
AllFresh-nil ((key, value) ∷ entries) = (tt, AllFresh-nil entries)

fold_items :
    (entries done : Map String)
    → AllWords entries
    → IsDistinct entries
    → AllFresh entries done
    → foldl add_item done (map key_item entries) ≡ append done entries
fold_items [] done words distinct fresh = sym (append-nil done)
fold_items ((key, value) ∷ entries) done ((_, _, plain), words) (once, distinct) (new, fresh) =
    let rest = map key_item entries in
    let parts = split_two_on "=" "" key value plain in
    let split = ap (λ p. foldl add_item (add_pair done p) rest) parts in
    let added = ap (λ m. foldl add_item m rest) (insert_new key value done new) in
    let next =
      fold_items entries (append done ((key, value) ∷ [])) words distinct
        (AllFresh-more key value entries done fresh once) in
    split ∙ added ∙ next ∙ append_assoc done ((key, value) ∷ []) entries

items-AllAvoid :
    (entries : Map String) → AllWords entries → AllAvoid " " "| " (map key_item entries)
items-AllAvoid [] words = tt
items-AllAvoid ((key, value) ∷ entries) ((k, v, _), words) = (
  Avoids-append 32 key ("=" ++ value) k (Avoids-append 32 "=" value (lacks-Avoids 32 "=" refl) v),
  items-AllAvoid entries words,
)

-- A text with a "=".
marked : (s t : String) → ¬ Avoids 61 (s ++ ("=" ++ t))
marked String.[] t a = (subst (Avoids 61) (nil-append ("=" ++ t) ∙ cons-append "=" "" t) a).0 refl
marked (String.◌∷◌ c s) t a = marked s t ((subst (Avoids 61) (cons-append c s ("=" ++ t)) a).1)

join-marked :
    (key value : String) (items : List String)
    → ¬ Avoids 61 (join " | " (key_item (key, value) ∷ items))
unfolding join
join-marked key value [] a = marked key value a
join-marked key value (item ∷ items) a =
    let more = " | " ++ join " | " (item ∷ items) in
    let text = text_assoc key ("=" ++ value) more ∙ ap (◌++◌ key) (text_assoc "=" value more) in
    marked key (value ++ more) (subst (Avoids 61) text a)

-- Such a text does not stand for an empty answer.
marked-shown : (s : String) → ¬ Avoids 61 s → shown_empty s ≡ false
marked-shown s has =
    let other : s ≢ "(empty)" =
      λ same. has (subst (Avoids 61) (sym same) (lacks-Avoids 61 "(empty)" refl)) in
    let some_text : s ≢ "" = λ same. has (subst (Avoids 61) (sym same) tt) in
    ground (arith, other, some_text, eq_iff s "(empty)", eq_iff s "")

read_keys-keys_line :
    (entries : Map String)
    → AllWords entries
    → IsDistinct entries
    → read_keys (keys_line entries) ≡ entries
unfolding read_keys trim_prefix cut_prefix
read_keys-keys_line [] words distinct = refl
read_keys-keys_line ((key, value) ∷ entries) words distinct =
    let all : Map String = (key, value) ∷ entries in
    let items = map key_item all in
    let full : shown_empty (join " | " items) ≡ false =
      marked-shown (join " | " items) (join-marked key value (map key_item entries)) in
    let split =
      split_on-join " " "| " (key_item (key, value)) (map key_item entries)
        (items-AllAvoid all words) in
    ap split_pairs (trim_prefix-append "KEYS " (join " | " items))
    ∙ rw full (ap (foldl add_item []) split ∙ fold_items all [] words distinct (AllFresh-nil all))

served_keys :
    (submit : Submit) (n : Node) → served submit n "KEYS" ≡ some (keys_line (get_all_keys n))
unfolding handle_line answer trim_space trim_left trim_right split_n cut is_command
served_keys submit n = refl

insert-Fresh :
    (key other value : String) (entries : Map String)
    → other ≢ key
    → Fresh key entries
    → Fresh key (insert other value entries)
unfolding insert
insert-Fresh key other value [] differ h = (differ, tt)
insert-Fresh key other value ((first, old) ∷ entries) differ (here, h) =
    elim (Bool-cases (first == other)) [
      | inl same ↦ rw same ((differ, h))
      | inr apart ↦ rw apart ((here, insert-Fresh key other value entries differ h))
    ]

insert-IsDistinct :
    (key value : String) (entries : Map String)
    → IsDistinct entries
    → IsDistinct (insert key value entries)
unfolding insert
insert-IsDistinct key value [] h = (tt, tt)
insert-IsDistinct key value ((first, old) ∷ entries) (fresh, h) = elim (Bool-cases (first == key)) [
  | inl same ↦
      let at : first ≡ key = ground (arith, same, eq_iff first key) in
      rw same ((subst (λ k. Fresh k entries) at fresh, h))
  | inr apart ↦
      let differ : key ≢ first = λ e. ground (arith, apart, e, eq_iff first key) in
      rw apart
        ((insert-Fresh first key value entries differ fresh, insert-IsDistinct key value entries h))
]

copy_into-IsDistinct : (acc m : Map String) → IsDistinct acc → IsDistinct (copy_into acc m)
unfolding copy_into
copy_into-IsDistinct acc [] h = h
copy_into-IsDistinct acc ((key, value) ∷ m) h =
    copy_into-IsDistinct (insert key value acc) m (insert-IsDistinct key value acc h)

-- A copy of a map has each key once.
get_all_keys-IsDistinct : (n : Node) → IsDistinct (get_all_keys n)
unfolding get_all_keys get_all
get_all_keys-IsDistinct n = copy_into-IsDistinct [] n.kv_store.contents tt

-- `queryNode` on a node that answers finds the keys and the values of its store, if they are words without spaces and the
-- keys have no "=".
pub query_node-keys :
    (submit : Submit) (n : Node) (addr : String)
    → AllWords (get_all_keys n)
    → (query_node addr (served submit n)).keys ≡ get_all_keys n
unfolding query_node
query_node-keys submit n addr words =
    rw (served_status submit n, served_keys submit n)
      (read_keys-keys_line (get_all_keys n) words (get_all_keys-IsDistinct n))
