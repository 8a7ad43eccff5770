-- ===== src/Kv.antt =====
-- internal/kv/store.go: the state machine that committed entries are applied to. The mutex makes each
-- operation one step.
pub mod Laws
use orris.Prelude.{String, Option, [], ◌∷◌, Map, lookup, insert, erase}

pub record Store : Type 0 where
  pub contents : Map String

unfoldable pub new_store : Store
new_store = record { contents = [] }

unfoldable pub set : Store → String → String → Store
set s k v = record s { contents = insert k v s.contents }

unfoldable pub delete : Store → String → Store
delete s k = record s { contents = erase k s.contents }

-- The pair `(v, ok)` is an `Option`.
unfoldable pub get : Store → String → Option String
get s k = lookup k s.contents

unfoldable pub copy_into : Map String → Map String → Map String
copy_into acc [] = acc
copy_into acc ((k, v) ∷ m) = copy_into (insert k v acc) m

-- A fresh map, filled by ranging over the store's.
unfoldable pub get_all : Store → Map String
unfolding copy_into
get_all s = copy_into [] s.contents
