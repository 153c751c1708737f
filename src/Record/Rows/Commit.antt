-- ===== src/Record/Rows/Commit.antt =====
-- One change as one commit of the ledger (internal/core/core.go, `commit`). The encodings, the hash,
-- the equality of values, and what the engine numbers a row and a commit by, are parameters. A failure
-- of the engine itself is left out: it ends the transaction as a failed effect does.
pub mod Entries
pub mod Kept
use container_app_service_mo.Base.{
  ℕ, zero, suc, ◌+◌, Bool, true, false, not, List, [], ◌∷◌, ◌++◌, String, Option, none, some,
  if◌then◌else◌, length, ◌==◌,
}
use container_app_service_mo.Base.Int.{ℤ, pos, pos_part, neg_part}
use container_app_service_mo.Base.Results.{Result, ok, err, ◌>>=◌, ◌>>◌, refuse_if}
use container_app_service_mo.Base.Text.{Text}
use container_app_service_mo.Record.{Envelope, EnvelopeError, validate, tx_id, summary, clip}
use container_app_service_mo.Record.Rows.{
  Value, Decoders, WriteOp, Tables, ApplyError, apply, lookup, pk_columns,
}
use container_app_service_mo.Record.Rows.Stored.{
  Codec, Transaction, TransactionRow, ReadError, transaction_by_id,
}
use text.Mathlib.Text.{◌==◌ as str_eq}

-- What the store holds: the tables, the rows of the transactions in their order, the root and the
-- version of the ledger (`Root`).
pub record Ledger : Type 0 where
  pub tables : Tables
  pub transactions : List TransactionRow
  pub root : String
  pub version : ℕ

-- The number that the engine gives to the next row of `transactions`, and the root of the ledger
-- after a commit, from the root before it and what the tables then hold.
pub record Engine : Type 0 where
  pub next_seq : List TransactionRow → ℕ
  pub next_root : String → Tables → List TransactionRow → String

pub data CommitError : Type 0 where
  bad_envelope : EnvelopeError → CommitError
  unknown_table : String → CommitError
  no_key : String → CommitError
  not_encoded : CommitError
  not_applied : ApplyError → CommitError
  not_read : ReadError → CommitError

abbrev pub is_unlisted {ℓ} : {A : Type ℓ} → Option A → Bool
is_unlisted none = true
is_unlisted (some a) = false

-- Each effect is on a table with a known key, and has one.
unfoldable pub check_ops : List WriteOp → Result CommitError (Unit {0})
check_ops [] = ok tt
check_ops (op ∷ ops) = do
  refuse_if (is_unlisted (lookup op.table pk_columns)) (unknown_table op.table)
  refuse_if (length op.key == 0) (no_key op.table)
  check_ops ops

abbrev pub is_zero : ℤ → Bool
is_zero z = (pos_part z + neg_part z) == 0

-- The tenant of the instance and the clock, where the envelope has none.
unfoldable pub with_defaults : String → ℤ → Envelope → Envelope
with_defaults tenant now env = record env {
  tenant = if str_eq env.tenant "" then tenant else env.tenant;
  timestamp = if is_zero env.timestamp then now else env.timestamp;
}

abbrev pub as_commit_error {ℓ κ} :
    {E : Type ℓ} {A : Type κ} → (E → CommitError) → Result E A → Result CommitError A
as_commit_error f (ok a) = ok a
as_commit_error f (err e) = err (f e)

abbrev pub encoded : Option Text → Result CommitError Text
encoded none = err not_encoded
encoded (some t) = ok t

abbrev pub head_or_empty : List String → String
head_or_empty [] = ""
head_or_empty (id ∷ ids) = id

-- What identifies a change: the two encodings and the hash of both.
pub record Identified : Type 0 where
  pub txid : String
  pub envelope : Text
  pub write_set : Text

-- The row written ahead of the effects.
unfoldable pub transaction_row : ℕ → Ledger → Identified → Envelope → TransactionRow
unfolding clip summary
transaction_row seq l i env = record {
  seq = seq;
  txid = i.txid;
  tenant = env.tenant;
  kind = env.kind;
  service_id = env.service;
  object_id = head_or_empty env.object_ids;
  author_sub = env.author.sub;
  author_display = env.author.display;
  author_role = env.author.role;
  summary = clip 255 (summary env);
  created_at = env.timestamp;
  root_before = l.root;
  version_before = l.version;
  version_after = l.version + 1;
  envelope = i.envelope;
  write_set = i.write_set;
}

-- The transaction that the caller gets: it is not read back, and has no sequence number.
unfoldable pub new_transaction : Ledger → String → Envelope → List WriteOp → Transaction
new_transaction l txid env ops = record {
  seq = 0;
  tx_id = txid;
  envelope = env;
  write_set = ops;
  root_before = l.root;
  version_before = l.version;
  version_after = l.version + 1;
}

module _ (same : Value → Value → Bool) (d : Decoders) (sha256_hex : Text → String) (codec : Codec)
    (engine : Engine) where
  -- The row and the effects, or the ledger as it was where an effect fails.
  unfoldable pub record_transaction :
      Ledger
      → Identified
      → Envelope
      → List WriteOp
      → Result ApplyError Tables
      → Ledger × Result CommitError Transaction
  unfolding transaction_row new_transaction
  record_transaction l i env ops (err e) = (l, err (not_applied e))
  record_transaction l i env ops (ok tables) =
      let rows = l.transactions ++ transaction_row (engine.next_seq l.transactions) l i env ∷ [] in
      (
        record {
          tables = tables;
          transactions = rows;
          root = engine.next_root l.root tables rows;
          version = l.version + 1;
        },
        ok (new_transaction l i.txid env ops),
      )

  -- A retried request gets the transaction that is there, as it is read back.
  unfoldable pub commit_new :
      Ledger
      → Identified
      → Envelope
      → List WriteOp
      → Result ReadError (Option Transaction)
      → Ledger × Result CommitError Transaction
  unfolding record_transaction
  commit_new l i env ops (err e) = (l, err (not_read e))
  commit_new l i env ops (ok (some existing)) = (l, ok existing)
  commit_new l i env ops (ok none) =
      record_transaction l i env ops (apply same d i.txid ops env.refs l.tables)

  -- What a change that may be recorded is encoded as.
  unfoldable pub identify : Envelope → List WriteOp → Result CommitError Identified
  identify env ops = do
    as_commit_error bad_envelope (validate env)
    check_ops ops
    envelope ← encoded (codec.marshal_envelope env)
    write_set ← encoded (codec.marshal_write_set ops)
    ok (record {
      txid = tx_id sha256_hex envelope write_set;
      envelope = envelope;
      write_set = write_set;
    })

  unfoldable pub commit_identified :
      Ledger
      → Envelope
      → List WriteOp
      → Result CommitError Identified
      → Ledger × Result CommitError Transaction
  commit_identified l env ops (err e) = (l, err e)
  commit_identified l env ops (ok i) =
      commit_new l i env ops (transaction_by_id codec i.txid l.transactions)

  unfoldable pub commit :
      String → ℤ → Ledger → Envelope → List WriteOp → Ledger × Result CommitError Transaction
  commit tenant now l env ops =
      let filled = with_defaults tenant now env in
      commit_identified l filled ops (identify filled ops)
