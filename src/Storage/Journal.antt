-- ===== src/Storage/Journal.antt =====
-- The write-ahead log as a node uses it: the records that were appended while the file was open, in
-- order. `Storage.Wal.Refines` relates it to the file.
use orris.Prelude.{Bool, false, List, [], ◌∷◌, ◌++◌, if◌then◌else◌}
use orris.Storage.Records.{WalRecord}

pub record Journal : Type 0 where
  pub records : List WalRecord
  pub is_open : Bool

-- `_ = wal.Append(rec)`: on a closed file the error is dropped, and nothing is written.
unfoldable pub append : Journal → WalRecord → Journal
append j r = if j.is_open then record j { records = j.records ++ r ∷ [] } else j

unfoldable pub close : Journal → Journal
close j = record j { is_open = false }
