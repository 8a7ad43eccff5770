-- ===== src/Storage/Wal/Refines.antt =====
-- The log file against the journal that a node relies on.
use orris.Prelude.{
  ◌≡◌, refl, true, false, Option, none, some, List, [], ◌∷◌, arith, foldl, if◌then◌else◌,
}
use mathlib.Core.List.{append-nil}
use orris.Storage.Records.{WalRecord}
use orris.Storage.Journal
use orris.Storage.Journal.{Journal}
use orris.Storage.Wal.{Codec, Bytes, Wal, open_wal, close, append, read_all}
use orris.Storage.Wal.Framing.{IsWritable}
use orris.Storage.Wal.RoundTrip.{
  frames, AllWritable, read_all-opened, frames-append, AllWritable-append,
}

-- What a program does with a log: append a record, dropping the error, or close it.
pub data Use : Type 0 where
  appends : WalRecord → Use
  closes : Use

abbrev pub on_journal : Journal → Use → Journal
on_journal j (appends r) = Journal.append j r
on_journal j closes = Journal.close j

abbrev pub new_journal : Journal
new_journal = record { records = []; is_open = true }

module _ (codec : Codec) where
  abbrev pub keep_if_closed : Wal → Option Wal → Wal
  keep_if_closed w none = w
  keep_if_closed w (some w') = w'

  abbrev pub on_wal : Wal → Use → Wal
  on_wal w (appends r) = keep_if_closed w (append codec w r)
  on_wal w closes = close w

  abbrev pub WritesOnly : List Use → Type 0
  WritesOnly [] = Unit
  WritesOnly (appends r ∷ us) = IsWritable codec r × WritesOnly us
  WritesOnly (closes ∷ us) = WritesOnly us

  -- A closed file on one side, the bytes of the records on the other.
  abbrev pub RepresentsFile : Option Bytes → Journal → Type 0
  RepresentsFile none j = j.is_open ≡ false
  RepresentsFile (some contents) j =
      (j.is_open ≡ true) × (contents ≡ frames codec j.records) × AllWritable codec j.records

  abbrev pub Represents : Wal → Journal → Type 0
  Represents w j = RepresentsFile w.file j

  append-Represents :
      (file : Option Bytes) (j : Journal) (r : WalRecord)
      → IsWritable codec r
      → RepresentsFile file j
      → Represents (on_wal (record { file = file }) (appends r)) (Journal.append j r)
  unfolding append Journal.append
  append-Represents none j r ok h = ground arith
  append-Represents (some contents) j r ok h = (
    ground arith,
    rw (h.0, h.1, frames-append codec j.records (r ∷ []), append-nil),
    rw h.0 (AllWritable-append codec j.records (r ∷ []) h.2 (ok, tt)),
  )

  foldl-Represents :
      (us : List Use) (w : Wal) (j : Journal)
      → WritesOnly us
      → Represents w j
      → Represents (foldl on_wal w us) (foldl on_journal j us)
  unfolding close Journal.close
  foldl-Represents [] w j ok h = h
  foldl-Represents (appends r ∷ us) w j ok h =
      foldl-Represents us (on_wal w (appends r)) (Journal.append j r) ok.1
        (append-Represents w.file j r ok.0 h)
  foldl-Represents (closes ∷ us) w j ok h = foldl-Represents us (close w) (Journal.close j) ok refl

  read_all-Represents :
      (file : Option Bytes) (j : Journal)
      → RepresentsFile file j
      → read_all codec (record { file = file }) ≡ (if j.is_open then some j.records else none)
  read_all-Represents none j h = rw h (unfold read_all in refl)
  read_all-Represents (some contents) j h = rw (h.0, h.1) (read_all-opened codec j.records h.2)

  -- After any appends of writable records and closings of a new log, `ReadAll` of the file returns the
  -- records of the journal while the log is open, and os.ErrClosed once it was closed.
  pub read_all-uses :
      (us : List Use)
      → WritesOnly us
      → read_all codec (foldl on_wal (open_wal none) us)
        ≡ (let j = foldl on_journal new_journal us in if j.is_open then some j.records else none)
  unfolding open_wal
  read_all-uses us ok =
      read_all-Represents _ (foldl on_journal new_journal us)
        (foldl-Represents us (open_wal none) new_journal ok (refl, refl, tt))
