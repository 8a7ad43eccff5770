-- ===== src/Kv/Laws.antt =====
-- The store against the function from keys to values that a client sees.
use text.Mathlib.TextEquality.{eq_iff}
use orris.Prelude.{
  ◌∙◌, List, foldl, String, ◌≡◌, refl, Option, none, some, [], ◌∷◌, arith, Map, Bool-cases, inl,
  inr, subst, ◌==◌, string_eq, if◌then◌else◌, lookup, insert, erase, lookup-insert, lookup-erase,
}
use orris.Kv.{Store, new_store, set, delete, get, get_all, copy_into}

-- No key stands twice.
abbrev pub IsMap {ℓ} : {V : Type ℓ} → Map V → Type ℓ
IsMap [] = Unit
IsMap ((k, v) ∷ m) = (lookup k m ≡ none) × IsMap m

lookup-nil : (k : String) → lookup {V = String} k [] ≡ none
unfolding lookup
lookup-nil k = refl

insert-IsMap : (k v : String) (m : Map String) → IsMap m → IsMap (insert k v m)
unfolding insert
insert-IsMap k v [] h = (lookup-nil k, tt)
insert-IsMap k v ((j, w) ∷ m) h =
    let kept = insert-IsMap k v m h.1 in
    elim (Bool-cases (j == k)) [
      | inl e ↦ rw e (subst (λ i. lookup i m ≡ none) ((eq_iff j k).0 e) h.0, h.1)
      | inr e ↦ rw e (ground (arith, eq_iff j k, eq_iff k j, lookup-insert k j v m), kept)
    ]

erase-IsMap : (k : String) (m : Map String) → IsMap m → IsMap (erase k m)
unfolding erase
erase-IsMap k [] h = tt
erase-IsMap k ((j, w) ∷ m) h = ground (arith, lookup-erase k j m, erase-IsMap k m h.1)

lookup-cons :
    (k j v : String) (m : Map String)
    → lookup j ((k, v) ∷ m) ≡ (if k == j then some v else lookup j m)
unfolding lookup
lookup-cons k j v m = refl

abbrev or_else : Option String → Option String → Option String
or_else none d = d
or_else (some v) d = some v

lookup-copy_into :
    (j : String) (acc m : Map String)
    → IsMap m
    → lookup j (copy_into acc m) ≡ or_else (lookup j m) (lookup j acc)
unfolding copy_into
lookup-copy_into j acc [] h = rw lookup-nil
lookup-copy_into j acc ((k, v) ∷ m) h =
    let rest = lookup-copy_into j (insert k v acc) m h.1 in
    ground (arith, rest, lookup-cons k j v m, lookup-insert k j v acc, eq_iff k j)

-- The writes that a store can receive.
pub data Write : Type 0 where
  set_to : String → String → Write
  deleted : String → Write

abbrev pub write : Store → Write → Store
write s (set_to k v) = set s k v
write s (deleted k) = delete s k

abbrev pub write_all : List Write → Store
write_all = foldl write new_store

-- What a client last wrote at a key: the writes are newest last.
abbrev pub last_write : String → Option String → List Write → Option String
last_write j old [] = old
last_write j old (set_to k v ∷ ws) = last_write j (if k == j then some v else old) ws
last_write j old (deleted k ∷ ws) = last_write j (if k == j then none else old) ws

get-set : (s : Store) (k v j : String) → get (set s k v) j ≡ (if k == j then some v else get s j)
unfolding get set
get-set s k v j = lookup-insert k j v s.contents

get-delete : (s : Store) (k j : String) → get (delete s k) j ≡ (if k == j then none else get s j)
unfolding get delete
get-delete s k j = lookup-erase k j s.contents

get-foldl-write :
    (ws : List Write) (s : Store) (j : String)
    → get (foldl write s ws) j ≡ last_write j (get s j) ws
get-foldl-write [] s j = refl
get-foldl-write (set_to k v ∷ ws) s j = rw (← get-set s k v j) (get-foldl-write ws (set s k v) j)
get-foldl-write (deleted k ∷ ws) s j = rw (← get-delete s k j) (get-foldl-write ws (delete s k) j)

foldl-write-IsMap :
    (ws : List Write) (s : Store) → IsMap s.contents → IsMap (foldl write s ws).contents
unfolding set delete
foldl-write-IsMap [] s h = h
foldl-write-IsMap (set_to k v ∷ ws) s h =
    foldl-write-IsMap ws (set s k v) (insert-IsMap k v s.contents h)
foldl-write-IsMap (deleted k ∷ ws) s h =
    foldl-write-IsMap ws (delete s k) (erase-IsMap k s.contents h)

get-new_store : (j : String) → get new_store j ≡ none
unfolding get new_store
get-new_store = lookup-nil

new_store-IsMap : IsMap new_store.contents
unfolding new_store
new_store-IsMap = tt

or_else-none : (o : Option String) → or_else o none ≡ o
or_else-none none = refl
or_else-none (some v) = refl

lookup-get_all : (s : Store) (j : String) → IsMap s.contents → lookup j (get_all s) ≡ get s j
unfolding get get_all
lookup-get_all s j h =
    rw (lookup-copy_into j [] s.contents h, lookup-nil j) (or_else-none (lookup j s.contents))

-- After any writes to a new store, Get of a key, and the map that GetAll copies, have the value of the
-- last write to that key, and nothing where it was a delete or there was none.
pub get-write_all :
    (ws : List Write) (j : String)
    → (get (write_all ws) j ≡ last_write j none ws)
      × (lookup j (get_all (write_all ws)) ≡ last_write j none ws)
get-write_all ws j =
    let read : get (write_all ws) j ≡ last_write j none ws =
      rw (get-foldl-write ws new_store j, get-new_store j) in
    let distinct = foldl-write-IsMap ws new_store new_store-IsMap in
    (read, lookup-get_all (write_all ws) j distinct ∙ read)
