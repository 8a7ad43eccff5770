-- ===== src/Examples/Stores.antt =====
-- The key-value store: a run of writes.
use orris.Prelude.{◌≡◌, none, [], ◌∷◌, lookup, List}
use orris.Kv.{get, get_all}
use orris.Kv.Laws.{Write, set_to, deleted, write_all, last_write, get-write_all}

abbrev writes : List Write
writes = set_to "x" "1" ∷ set_to "y" "2" ∷ set_to "x" "3" ∷ deleted "y" ∷ []

get-write_all_example :
    (get (write_all writes) "x" ≡ last_write "x" none writes)
    × (lookup "x" (get_all (write_all writes)) ≡ last_write "x" none writes)
get-write_all_example = get-write_all writes "x"
