-- ===== src/Raft/Steps/Total.antt =====
-- Panics: the steps of a node, and the indices into its log.
use orris.Prelude.{◌≡◌, Option, some, List, [], ◌∷◌, minus_one, ◌≤ℤ◌}
use orris.Storage.Journal.{Journal}
use orris.Raft.State.{Node}
use orris.Raft.Steps
use orris.Raft.Steps.{Event, entries_received}
use orris.Raft.Steps.InRange.{InRange}

-- The step returns a node.
abbrev pub Returns : Option Node → Type 0
Returns result = (m : Node) × (result ≡ some m)

-- What a peer may send: HandleAppendEntries checks no index below -1.
abbrev pub IsSendable : Event → Type 0
IsSendable (entries_received req) = minus_one ≤ℤ req.prev_log_index
IsSendable _ = Unit

abbrev pub AllSendable : List Event → Type 0
AllSendable [] = Unit
AllSendable (e ∷ es) = IsSendable e × AllSendable es
