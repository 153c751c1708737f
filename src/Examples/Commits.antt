-- ===== src/Examples/Commits.antt =====
-- A change of a component as one commit, and the theorems on commit at it (internal/core/core.go).
use container_app_service_mo.Base.{◌≡◌, refl, [], ◌∷◌, some, length}
use container_app_service_mo.Base.Int.{pos}
use container_app_service_mo.Base.Results.{Result, ok}
use container_app_service_mo.Base.Text.{trim_space, before, ends_with}
use container_app_service_mo.Record.{Envelope, validate, tx_id, summary, check_summary, check_refs}
use container_app_service_mo.Record.Rows.{
  apply_ops, apply_one, columns, check_key, key_columns, change_rows, substitute, upsert_rows,
  update_rows, apply, ref_ops,
}
use container_app_service_mo.Record.Rows.Stored.{
  Codec, Transaction, TransactionRow, row_by_id, row_to_transaction, read_envelope, read_write_set,
  transaction_by_id,
}
use container_app_service_mo.Record.Rows.Commit.{
  Ledger, Engine, CommitError, not_read, as_commit_error, commit, commit_identified, commit_new,
  record_transaction, transaction_row, new_transaction, identify, check_ops, with_defaults,
}
use container_app_service_mo.Record.Rows.Commit.Entries.{IsSound, Keeps}
use container_app_service_mo.Record.Rows.Commit.Kept.{commit-IsSound, commit-again}
use container_app_service_mo.Examples.Changes.{api_name, hash, same_text, decoders, rename, no_rows}

abbrev change : Envelope
change = record {
  kind = "component.upsert";
  tenant = "";
  service = "shop";
  object_ids = "cmp_1" ∷ [];
  author = record { sub = "ada"; display = "Ada"; role = "editor" };
  timestamp = pos 1700000000;
  message = api_name;
  refs = [];
}

abbrev ledger : Ledger
ledger = record { tables = no_rows; transactions = []; root = "r7"; version = 7 }

abbrev acme_change : Envelope
acme_change = record change { tenant = "acme" }

abbrev codec : Codec
codec = record {
  marshal_envelope = λ env. some env.message;
  marshal_write_set = λ ops. some (length ops ∷ []);
  unmarshal_envelope = λ t. some acme_change;
  unmarshal_write_set = λ t. some rename;
}

abbrev engine : Engine
engine = record { next_seq = λ rows. 1; next_root = λ root tables rows. "r8" }

abbrev at_nine : Ledger × Result CommitError Transaction
at_nine = commit same_text decoders hash codec engine "acme" (pos 1700000009) ledger change rename

commit-IsSound_example : IsSound hash codec 7 at_nine.0
commit-IsSound_example =
    commit-IsSound same_text decoders hash codec engine 7 "acme" (pos 1700000009) ledger change
      rename refl

abbrev recorded : Transaction
recorded = record {
  seq = 0;
  tx_id = "many";
  envelope = acme_change;
  write_set = rename;
  root_before = "r7";
  version_before = 7;
  version_after = 8;
}

change_recorded : at_nine.1 ≡ ok recorded
unfolding commit commit_identified commit_new record_transaction new_transaction identify validate
    check_ops with_defaults transaction_by_id row_by_id apply apply_ops apply_one key_columns
    check_key columns substitute change_rows upsert_rows update_rows tx_id ref_ops trim_space
    summary check_summary check_refs before ends_with
change_recorded = refl

-- Tried again, the change comes back as it is read from its row, with the number of the row.
retry_reads :
    (commit same_text decoders hash codec engine "acme" (pos 1700000030) at_nine.0 change rename).1
    ≡ ok (record recorded { seq = 1 })
unfolding commit commit_identified commit_new record_transaction transaction_row new_transaction
    identify validate check_ops with_defaults transaction_by_id row_by_id row_to_transaction
    read_envelope read_write_set apply apply_ops apply_one key_columns check_key columns substitute
    change_rows upsert_rows update_rows tx_id ref_ops trim_space summary check_summary check_refs
    before ends_with
retry_reads = refl

commit-again_example :
    (row : TransactionRow) × (row_by_id "many" at_nine.0.transactions ≡ some row)
    × Keeps codec row recorded
    × (commit same_text decoders hash codec engine "acme" (pos 1700000030) at_nine.0 change rename
        ≡ (at_nine.0, as_commit_error not_read (row_to_transaction codec row)))
commit-again_example =
    commit-again same_text decoders hash codec engine "acme" (pos 1700000009) (pos 1700000030)
      ledger change rename refl change_recorded
