-- ===== src/Control/Node/Items.antt =====
-- The control tool reads the log items that a node writes.
use Prim.Native.String.{String, ◌++◌}
use text.Mathlib.TextLemmas.{append_assoc, cons-ne-nil}
use orris.Prelude.{suc, ℕ, ◌≡◌, ◌<◌, ◌⊎◌, refl, sym, ◌∙◌, ap, true, arith, inr, ℤ, pos, negsuc}
use orris.Storage.{LogEntry}
use orris.Client.Text.{trim_space, trim_right, format_nat, format_int}
use orris.Client.Text.Split.{IsTrimmed, IsTrimmed-append, trim_space-append}
use orris.Client.Server.{log_item}
use orris.Control.Text.{trim_prefix, cut_prefix, split_n_on, or_else}
use orris.Control.Text.Cut.{
  Avoids, Avoids-append, lacks-Avoids, cut_prefix-append, cut_on-part, split_three_on,
}
use orris.Control.Text.Decimal.{
  format_nat-IsNumeral, IsNumeral-Avoids, atoi-format_nat, atoi-format_int,
}
use orris.Control.Node.{LogItem, parse_log_item, item_parts, bracketed, opened, atoi_or_zero}

pub format_nat-Avoids : (k n : ℕ) → (k < 48) ⊎ (57 < k) → Avoids k (format_nat n)
format_nat-Avoids k n other = IsNumeral-Avoids k (format_nat n) other (format_nat-IsNumeral n)

pub format_int-Avoids :
    (k : ℕ) (z : ℤ) → (k < 48) ⊎ (57 < k) → Avoids k "-" → Avoids k (format_int z)
unfolding format_int
format_int-Avoids k (pos n) other sign = format_nat-Avoids k n other
format_int-Avoids k (negsuc n) other sign =
    Avoids-append k "-" (format_nat (suc n)) sign (format_nat-Avoids k (suc n) other)

pub atoi_or_zero-format_nat : (n : ℕ) → atoi_or_zero (format_nat n) ≡ pos n
unfolding atoi_or_zero
atoi_or_zero-format_nat n = ap (or_else (pos 0)) (atoi-format_nat n)

pub atoi_or_zero-format_int : (z : ℤ) → atoi_or_zero (format_int z) ≡ z
unfolding atoi_or_zero
atoi_or_zero-format_int z = ap (or_else (pos 0)) (atoi-format_int z)

pub trim_prefix-append : (p s : String) → trim_prefix (p ++ s) p ≡ s
unfolding trim_prefix
trim_prefix-append p s = rw (cut_prefix-append p s) refl

-- The text of an entry behind its index.
abbrev item_rest : LogEntry → String
item_rest e =
    ("T" ++ format_nat e.term) ++ (":" ++ (e.operation ++ (":" ++ (e.key ++ ("=" ++ e.value)))))

log_item-rest : (e : LogEntry) → log_item e ≡ "[" ++ (format_int e.index ++ ("]" ++ item_rest e))
log_item-rest e =
    let tail = ":" ++ (e.operation ++ (":" ++ (e.key ++ ("=" ++ e.value)))) in
    let close = append_assoc "]" "T" (format_nat e.term ++ tail) in
    let term = append_assoc "T" (format_nat e.term) tail in
    ap (λ s. "[" ++ (format_int e.index ++ s)) (close ∙ ap (◌++◌ "]") (sym term))

pair-IsTrimmed : (value : String) → trim_right value ≡ value → IsTrimmed ("=" ++ value)
unfolding trim_right
pair-IsTrimmed String.[] trimmed = (refl, cons-ne-nil "=" "")
pair-IsTrimmed (String.◌∷◌ c value) trimmed =
    IsTrimmed-append "=" (String.◌∷◌ c value) (trimmed, cons-ne-nil c value)

log_item-trimmed :
    (e : LogEntry) → trim_right e.value ≡ e.value → trim_space (log_item e) ≡ log_item e
log_item-trimmed e trimmed =
    let pair = IsTrimmed-append e.key ("=" ++ e.value) (pair-IsTrimmed e.value trimmed) in
    let op = IsTrimmed-append e.operation _ (IsTrimmed-append ":" _ pair) in
    let term = IsTrimmed-append (format_nat e.term) _ (IsTrimmed-append ":" _ op) in
    let whole = IsTrimmed-append (format_int e.index) _ (IsTrimmed-append "]T" _ term) in
    trim_space-append "[" "" _ refl whole

-- What the control tool makes of an entry.
abbrev pub shown : LogEntry → LogItem
shown e = record {
  index = e.index;
  term = pos e.term;
  op = e.operation;
  key = e.key;
  val = e.value;
}

item_rest-parts :
    (e : LogEntry) (index : ℤ)
    → Avoids 58 e.operation
    → Avoids 61 e.key
    → item_parts index (split_n_on ":" 3 (item_rest e)) ≡ (record (shown e) { index = index }, true)
item_rest-parts e index op key =
    let term_part = "T" ++ format_nat e.term in
    let plain =
      Avoids-append 58 "T" (format_nat e.term) (lacks-Avoids 58 "T" refl)
        (format_nat-Avoids 58 e.term (inr (omega arith))) in
    let parts = split_three_on ":" "" term_part e.operation (e.key ++ ("=" ++ e.value)) plain op in
    let term : atoi_or_zero (trim_prefix term_part "T") ≡ pos e.term =
      ap atoi_or_zero (trim_prefix-append "T" (format_nat e.term))
      ∙ atoi_or_zero-format_nat e.term in
    ap (item_parts index) parts ∙ rw (term, cut_on-part "=" "" e.key e.value key) refl

-- `parseLogItem` reads what a LOGS answer shows of an entry: its index, term, operation, key and value. The
-- operation has no ":", the key has no "=", and the value does not end in white space.
pub parse_log_item-log_item :
    (e : LogEntry)
    → Avoids 58 e.operation
    → Avoids 61 e.key
    → trim_right e.value ≡ e.value
    → parse_log_item (log_item e) ≡ (shown e, true)
unfolding parse_log_item
parse_log_item-log_item e op key trimmed =
    let text : trim_space (log_item e) ≡ "[" ++ (format_int e.index ++ ("]" ++ item_rest e)) =
      log_item-trimmed e trimmed ∙ log_item-rest e in
    let index = format_int-Avoids 93 e.index (inr (omega arith)) (lacks-Avoids 93 "-" refl) in
    let inside = cut_on-part "]" "" (format_int e.index) (item_rest e) index in
    let parts = item_rest-parts e (atoi_or_zero (format_int e.index)) op key in
    let found =
      ap (cut_prefix "[") text
      ∙ cut_prefix-append "[" (format_int e.index ++ ("]" ++ item_rest e)) in
    ap opened found ∙ ap bracketed inside ∙ parts ∙ rw (atoi_or_zero-format_int e.index) refl
