-- ===== src/Record/Rows.antt =====
-- The write set of a transaction and its effect on the tables (internal/model/writeset.go,
-- internal/core/core.go). A row, and a condition on the key of a row, gives a value for a column. The
-- equality of two values in the SQL engine, and what decodes a value, are parameters.
pub mod Commit
pub mod View
pub mod Replay
pub mod Refined
pub mod Stored
use container_app_service_mo.Base.{
  ℕ, zero, suc, Bool, true, false, not, ◌&&◌, List, [], ◌∷◌, ◌++◌, String, Option, none, some,
  if◌then◌else◌, select, any,
}
use container_app_service_mo.Base.Int.{ℤ}
use container_app_service_mo.Base.Results.{Result, ok, err, ◌>>=◌, ◌>>◌}
use container_app_service_mo.Base.Text.{Text}
use container_app_service_mo.Record.{Ref}
use text.Mathlib.Text.{◌==◌ as str_eq}

-- The dynamic values of a write set. A float64 is its bits.
mutual
  pub data Value : Type 0 where
    str : String → Value
    binary : Text → Value
    bytes : Text → Value
    object : Fields → Value
    float64 : ℕ → Value
    number : String → Value
    int : ℤ → Value
    int64 : ℤ → Value
    uint64 : ℕ → Value
    boolean : Bool → Value

  pub data Fields : Type 0 where
    end : Fields
    field : String → Value → Fields → Fields

pub record WriteOp : Type 0 where
  pub table : String
  pub key : List (String × Value)
  pub values : List (String × Value)
  pub delete : Bool

abbrev pub txid_placeholder : String
txid_placeholder = "$txid"

abbrev pub binary_tag : String
binary_tag = "$bytes"

-- What encoding/base64, encoding/json and the conversions of float64 give.
pub record Decoders : Type 0 where
  pub base64 : String → Option Text
  pub whole : ℕ → Option ℤ
  pub parse_int : String → Option ℤ
  pub parse_float : String → ℕ

abbrev pub bytes_or : Value → Option Text → Value
bytes_or v none = v
bytes_or v (some b) = bytes b

-- `DecodeBinary`: an object of one field with the tag.
unfoldable pub decode_binary : Decoders → Fields → Option Text
decode_binary d (field tag (str encoded) end) =
    if str_eq tag binary_tag then d.base64 encoded else none
decode_binary d _ = none

abbrev pub int64_or : Value → Option ℤ → Value
int64_or v none = v
int64_or v (some i) = int64 i

unfoldable pub substitute : Decoders → String → Value → Value
unfolding decode_binary
substitute d txid (str s) = if str_eq s txid_placeholder then str txid else str s
substitute d txid (binary b) = bytes b
substitute d txid (object fs) = bytes_or (object fs) (decode_binary d fs)
substitute d txid (float64 f) = int64_or (float64 f) (d.whole f)
substitute d txid (number n) = int64_or (float64 (d.parse_float n)) (d.parse_int n)
substitute d txid (int i) = int64 i
substitute d txid v = v

-- `pkColumns`.
abbrev pub pk_columns : List (String × List String)
pk_columns =
    ("services", "id" ∷ [])
    ∷ ("components", "id" ∷ [])
    ∷ ("monitors", "id" ∷ [])
    ∷ ("monitor_versions", "monitor_id" ∷ "version" ∷ [])
    ∷ ("schedules", "id" ∷ [])
    ∷ ("objectives", "id" ∷ [])
    ∷ ("samples", "id" ∷ [])
    ∷ ("buckets", "monitor_id" ∷ "width_seconds" ∷ "bucket_start" ∷ [])
    ∷ ("incidents", "id" ∷ [])
    ∷ ("incident_updates", "id" ∷ [])
    ∷ ("maintenance_windows", "id" ∷ [])
    ∷ ("secrets_meta", "name" ∷ [])
    ∷ ("alerts", "id" ∷ [])
    ∷ ("alert_deliveries", "id" ∷ [])
    ∷ ("reports", "id" ∷ [])
    ∷ ("runtime_events", "id" ∷ [])
    ∷ ("states", "subject" ∷ [])
    ∷ ("prune_marks", "txid" ∷ "idx" ∷ [])
    ∷ ("registry", "k" ∷ [])
    ∷ ("tx_refs", "txid" ∷ "idx" ∷ [])
    ∷ ("clock_readings", "id" ∷ [])
    ∷ ("clock_incidents", "id" ∷ [])
    ∷ ("clock_actions", "id" ∷ [])
    ∷ ("clock_enclaves", "enclave_id" ∷ [])
    ∷ ("clock_vault_alerts", "enclave_id" ∷ [])
    ∷ []

-- A Go map by its key.
unfoldable pub lookup {ℓ} : {V : Type ℓ} → String → List (String × V) → Option V
lookup k [] = none
lookup k ((j, v) ∷ m) = if str_eq j k then some v else lookup k m

-- The key columns of a table; a table that is not listed has none, and is refused before.
abbrev pub columns_or : Option (List String) → List String
columns_or none = []
columns_or (some cols) = cols

unfoldable pub key_columns : String → List String
unfolding lookup
key_columns table = columns_or (lookup table pk_columns)

abbrev pub Row : Type 0
Row = String → Option Value

abbrev pub map_some {ℓ κ} : {A : Type ℓ} {B : Type κ} → (A → B) → Option A → Option B
map_some f none = none
map_some f (some a) = some (f a)

abbrev pub or_else {ℓ} : {A : Type ℓ} → Option A → Option A → Option A
or_else none b = b
or_else (some a) b = some a

-- The values of a write set as columns, with the placeholder filled in.
unfoldable pub columns : Decoders → String → List (String × Value) → Row
unfolding lookup substitute
columns d txid fields col = map_some (substitute d txid) (lookup col fields)

-- The row with those columns set.
abbrev pub overlay : Row → Row → Row
overlay over row col = or_else (over col) (row col)

abbrev pub every : (String → Bool) → List String → Bool
every p [] = true
every p (c ∷ cs) = p c && every p cs

abbrev pub same_at : (Value → Value → Bool) → Option Value → Option Value → Bool
same_at same none b = false
same_at same (some a) none = false
same_at same (some a) (some b) = same a b

pub data ApplyError : Type 0 where
  missing_column : String → ApplyError

abbrev pub refuse_missing :
    String → Option Value → Result ApplyError (Unit {0}) → Result ApplyError (Unit {0})
refuse_missing col none rest = err (missing_column col)
refuse_missing col (some v) rest = rest

unfoldable pub check_key : List String → Row → Result ApplyError (Unit {0})
check_key [] key = ok tt
check_key (col ∷ cols) key = refuse_missing col (key col) (check_key cols key)

-- The tables, each by its name.
abbrev pub Tables : Type 0
Tables = String → List Row

module _ (same : Value → Value → Bool) where
  -- The condition on the key columns.
  abbrev pub matches : List String → Row → Row → Bool
  matches cols key row = every (λ col. same_at same (key col) (row col)) cols

  -- INSERT where no row matches, UPDATE of those that do otherwise.
  unfoldable pub update_rows : List String → Row → Row → List Row → List Row
  update_rows cols key values [] = []
  update_rows cols key values (row ∷ rows) =
      (if matches cols key row then overlay values row else row) ∷ update_rows cols key values rows

  unfoldable pub upsert_rows : List String → Row → Row → List Row → List Row
  unfolding update_rows
  upsert_rows cols key values rows =
      if any (matches cols key) rows
      then update_rows cols key values rows
      else rows ++ overlay key values ∷ []

-- The row that an effect writes for each reference of the envelope.
unfoldable pub ref_ops : String → ℕ → List Ref → List WriteOp
ref_ops txid i [] = []
ref_ops txid i (r ∷ refs) =
    record {
      table = "tx_refs";
      key = ("txid", str txid) ∷ ("idx", uint64 i) ∷ [];
      values = ("ref_type", str r.ref_type) ∷ ("target", str r.target) ∷ [];
      delete = false;
    }
    ∷ ref_ops txid (suc i) refs

abbrev pub set_table : String → List Row → Tables → Tables
set_table table rows db name = if str_eq name table then rows else db name

module _ (same : Value → Value → Bool) (d : Decoders) (txid : String) where
  unfoldable pub change_rows : List String → WriteOp → List Row → List Row
  unfolding columns upsert_rows
  change_rows cols op rows =
      if op.delete
      then select (λ row. not (matches same cols (columns d txid op.key) row)) rows
      else upsert_rows same cols (columns d txid op.key) (columns d txid op.values) rows

  unfoldable pub apply_one : WriteOp → Tables → Result ApplyError Tables
  apply_one op db =
      check_key (key_columns op.table) (columns d txid op.key)
      >> ok (set_table op.table (change_rows (key_columns op.table) op (db op.table)) db)

  unfoldable pub apply_ops : List WriteOp → Tables → Result ApplyError Tables
  unfolding apply_one
  apply_ops [] db = ok db
  apply_ops (op ∷ ops) db = apply_one op db >>= λ changed. apply_ops ops changed

  unfoldable pub apply : List WriteOp → List Ref → Tables → Result ApplyError Tables
  apply ops refs db = apply_ops ops db >>= λ changed. apply_ops (ref_ops txid 0 refs) changed
