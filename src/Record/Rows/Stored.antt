-- ===== src/Record/Rows/Stored.antt =====
-- The rows of the table `transactions` and a transaction read back from one (internal/core/core.go,
-- `transactionByID` and `rowToTransaction`; internal/model/writeset.go). A row holds the envelope and
-- the write set as the canonical JSON that was hashed. What the encoders and encoding/json give is a
-- parameter, since reading loses the types of the values and can fail.
pub mod Found
use container_app_service_mo.Base.{ℕ, List, [], ◌∷◌, String, Option, none, some, if◌then◌else◌}
use container_app_service_mo.Base.Int.{ℤ, pos}
use container_app_service_mo.Base.Results.{Result, ok, err, ◌>>=◌}
use container_app_service_mo.Base.Text.{Text, is_empty}
use container_app_service_mo.Record.{Envelope}
use container_app_service_mo.Record.Rows.{WriteOp}
use text.Mathlib.Text.{◌==◌ as str_eq}

-- `canon.Marshal`, and `json.Unmarshal` into a zero value, at the two types.
pub record Codec : Type 0 where
  pub marshal_envelope : Envelope → Option Text
  pub marshal_write_set : List WriteOp → Option Text
  pub unmarshal_envelope : Text → Option Envelope
  pub unmarshal_write_set : Text → Option (List WriteOp)

pub record Transaction : Type 0 where
  pub seq : ℕ
  pub tx_id : String
  pub envelope : Envelope
  pub write_set : List WriteOp
  pub root_before : String
  pub version_before : ℕ
  pub version_after : ℕ

pub record TransactionRow : Type 0 where
  pub seq : ℕ
  pub txid : String
  pub tenant : String
  pub kind : String
  pub service_id : String
  pub object_id : String
  pub author_sub : String
  pub author_display : String
  pub author_role : String
  pub summary : Text
  pub created_at : ℤ
  pub root_before : String
  pub version_before : ℕ
  pub version_after : ℕ
  pub envelope : Text
  pub write_set : Text

-- A column that is not read, of the transaction with that identifier.
pub data ReadError : Type 0 where
  unread_envelope unread_write_set : String → ReadError

abbrev pub zero_envelope : Envelope
zero_envelope = record {
  kind = "";
  tenant = "";
  service = "";
  object_ids = [];
  author = record { sub = ""; display = ""; role = "" };
  timestamp = pos 0;
  message = [];
  refs = [];
}

abbrev pub or_unread {ℓ} : {A : Type ℓ} → ReadError → Option A → Result ReadError A
or_unread e none = err e
or_unread e (some a) = ok a

-- The row that has the identifier; the index `tx_txid` lets only one have it.
unfoldable pub row_by_id : String → List TransactionRow → Option TransactionRow
row_by_id txid [] = none
row_by_id txid (row ∷ rows) = if str_eq row.txid txid then some row else row_by_id txid rows

abbrev pub some_read : Result ReadError Transaction → Result ReadError (Option Transaction)
some_read (err e) = err e
some_read (ok t) = ok (some t)

module _ (codec : Codec) where
  unfoldable pub read_envelope : TransactionRow → Result ReadError Envelope
  read_envelope row =
      if is_empty row.envelope
      then ok zero_envelope
      else or_unread (unread_envelope row.txid) (codec.unmarshal_envelope row.envelope)

  unfoldable pub read_write_set : TransactionRow → Result ReadError (List WriteOp)
  read_write_set row =
      if is_empty row.write_set
      then ok []
      else or_unread (unread_write_set row.txid) (codec.unmarshal_write_set row.write_set)

  unfoldable pub row_to_transaction : TransactionRow → Result ReadError Transaction
  unfolding read_envelope read_write_set
  row_to_transaction row = do
    envelope ← read_envelope row
    write_set ← read_write_set row
    ok (record {
      seq = row.seq;
      tx_id = row.txid;
      envelope = envelope;
      write_set = write_set;
      root_before = row.root_before;
      version_before = row.version_before;
      version_after = row.version_after;
    })

  abbrev pub read_found : Option TransactionRow → Result ReadError (Option Transaction)
  read_found none = ok none
  read_found (some row) = some_read (row_to_transaction row)

  unfoldable pub transaction_by_id :
      String → List TransactionRow → Result ReadError (Option Transaction)
  unfolding row_by_id row_to_transaction
  transaction_by_id txid rows = read_found (row_by_id txid rows)
