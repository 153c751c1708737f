-- ===== src/Record/Rows/Commit/Kept.antt =====
-- What a commit keeps of the ledger, and a commit that is tried again (internal/core/core.go,
-- `commit`).
use container_app_service_mo.Base.{ℕ, ◌≡◌, refl, sym, ap, ◌∙◌, Bool, false, List, String, some}
use container_app_service_mo.Base.Int.{ℤ}
use container_app_service_mo.Base.Results.{Result, ok, err}
use container_app_service_mo.Base.Text.{Text}
use container_app_service_mo.Record.{Envelope}
use container_app_service_mo.Record.Rows.{Value, Decoders, WriteOp}
use container_app_service_mo.Record.Rows.Stored.{
  Codec, Transaction, TransactionRow, row_by_id, row_to_transaction, transaction_by_id, read_found,
}
use container_app_service_mo.Record.Rows.Stored.Found.{row_by_id-txid}
use container_app_service_mo.Record.Rows.Commit.{
  Ledger, Engine, Identified, CommitError, not_read, with_defaults, as_commit_error, identify,
  commit_identified, commit, is_zero,
}
use container_app_service_mo.Record.Rows.Commit.Entries.{
  Keeps, IsSound, identify-IsIdentified, commit_new-read, commit_new-IsSound, commit_new-Keeps, new,
}

module _ (same : Value → Value → Bool) (d : Decoders) (sha256_hex : Text → String) (codec : Codec)
    (engine : Engine) where
  abbrev identified :
      Ledger
      → Envelope
      → List WriteOp
      → Result CommitError Identified
      → Ledger × Result CommitError Transaction
  identified = commit_identified same d sha256_hex codec engine

  -- The answer to a change that is recorded already, after a commit that answered `t`.
  abbrev Repeats : Transaction → Ledger → Ledger × Result CommitError Transaction → Type 0
  Repeats t l answer =
      (row : TransactionRow) × (row_by_id t.tx_id l.transactions ≡ some row)
      × Keeps codec row t
      × (answer ≡ (l, as_commit_error not_read (row_to_transaction codec row)))

  module _ (start : ℕ) (l : Ledger) (env : Envelope) (ops : List WriteOp) where
    commit_identified-IsSound :
        (r : Result CommitError Identified)
        → r ≡ identify same d sha256_hex codec engine env ops
        → IsSound sha256_hex codec start l
        → IsSound sha256_hex codec start (identified l env ops r).0
    unfolding commit_identified transaction_by_id
    commit_identified-IsSound (err e) same_result sound = sound
    commit_identified-IsSound (ok i) same_result sound =
        commit_new-IsSound same d sha256_hex codec engine start l env ops i _ sound
          (identify-IsIdentified same d sha256_hex codec engine env ops (sym same_result)) refl

    commit_identified-again :
        (r : Result CommitError Identified) {t : Transaction}
        → r ≡ identify same d sha256_hex codec engine env ops
        → (identified l env ops r).1 ≡ ok t
        → Repeats t (identified l env ops r).0 (identified (identified l env ops r).0 env ops r)
    unfolding commit_identified transaction_by_id
    commit_identified-again (err e) same_result h = cc
    commit_identified-again (ok i) {t} same_result h =
        let found = row_by_id i.txid l.transactions in
        let after : Ledger =
          (new same d sha256_hex codec engine l i env ops (read_found codec found)).0 in
        let (row, looked, keeps) =
          commit_new-Keeps same d sha256_hex codec engine start l env ops i found
            (identify-IsIdentified same d sha256_hex codec engine env ops (sym same_result)) refl
            h in
        let named : i.txid ≡ t.tx_id =
          sym (row_by_id-txid i.txid after.transactions looked) ∙ keeps.txid in
        (
          row,
          ap (λ id. row_by_id id after.transactions) (sym named) ∙ looked,
          keeps,
          ap (λ o. new same d sha256_hex codec engine after i env ops (read_found codec o)) looked
              ∙ commit_new-read same d sha256_hex codec engine after i env ops
                  (row_to_transaction codec row),
        )

  -- A commit, successful or not, keeps the ledger sound: the row of every transaction holds the
  -- encodings of a valid envelope and of a write set, the kind, tenant and instant of that
  -- envelope, and the identifier of the two encodings, which no earlier row has; and each starts
  -- at the version at which the one before it ended and adds one to it, up to the version of the
  -- ledger.
  pub commit-IsSound :
      (start : ℕ) (tenant : String) (now : ℤ) (l : Ledger) (env : Envelope) (ops : List WriteOp)
      → IsSound sha256_hex codec start l
      → IsSound sha256_hex codec start
          (commit same d sha256_hex codec engine tenant now l env ops).0
  unfolding commit
  commit-IsSound start tenant now l env ops sound =
      commit_identified-IsSound start l (with_defaults tenant now env) ops _ refl sound

  -- Where a commit of an envelope with an instant succeeded, the same commit tried again on that
  -- ledger, whatever the clock then shows, leaves it as it is, and answers with what is read from
  -- the row stored under the identifier, or with the error of reading it. That row has the
  -- identifier, the root and the versions of the first answer, and it holds the encodings of the
  -- first answer's envelope and write set, unless the first answer was itself read from it.
  pub commit-again :
      (tenant : String) (now later : ℤ) (l : Ledger) (env : Envelope) (ops : List WriteOp)
      {t : Transaction}
      → is_zero env.timestamp ≡ false
      → (commit same d sha256_hex codec engine tenant now l env ops).1 ≡ ok t
      → (row : TransactionRow) × (row_by_id t.tx_id
            (commit same d sha256_hex codec engine tenant now l env ops).0.transactions
          ≡ some row)
        × Keeps codec row t
        × (commit same d sha256_hex codec engine tenant later
              (commit same d sha256_hex codec engine tenant now l env ops).0
              env
              ops
            ≡ (
              (commit same d sha256_hex codec engine tenant now l env ops).0,
              as_commit_error not_read (row_to_transaction codec row),
            ))
  unfolding commit
  commit-again tenant now later l env ops stamped h =
      let filled : with_defaults tenant later env ≡ with_defaults tenant now env =
        unfold with_defaults in rw stamped in
      rw filled (
        commit_identified-again 0 l (with_defaults tenant now env) ops
          (identify same d sha256_hex codec engine (with_defaults tenant now env) ops) refl h)
