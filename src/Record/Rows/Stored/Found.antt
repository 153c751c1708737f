-- ===== src/Record/Rows/Stored/Found.antt =====
-- Which row of the transactions an identifier finds (internal/core/core.go, `transactionByID`).
use container_app_service_mo.Base.{
  ◌≡◌, ◌∙◌, ap, Bool-cases, inl, inr, List, [], ◌∷◌, ◌++◌, String, none, some, arith,
}
use container_app_service_mo.Base.Results.{ok, >>=-eq-ok}
use container_app_service_mo.Record.Rows.Stored.{
  Codec, Transaction, TransactionRow, row_by_id, row_to_transaction, read_envelope, read_write_set,
}
use text.Mathlib.Text.{◌==◌ as str_eq}
use text.Mathlib.TextEquality.{eq_iff}
use text.Mathlib.TextPositions.{eq_refl}

-- A row found has the identifier looked up.
pub row_by_id-txid :
    (txid : String) (rows : List TransactionRow) {row : TransactionRow}
    → row_by_id txid rows ≡ some row
    → row.txid ≡ txid
unfolding row_by_id
row_by_id-txid txid [] h = cc
row_by_id-txid txid (r ∷ rows) {row} h = elim (Bool-cases (str_eq r.txid txid)) [
  | inl same ↦
      let found : some r ≡ some row = rw same at h in
      (let e : row ≡ r = cc in ap (λ t. t.txid) e ∙ (eq_iff r.txid txid).0 same)
  | inr apart ↦ row_by_id-txid txid rows (rw apart at h)
]

-- A row that is added is found where none before it has its identifier.
pub row_by_id-append :
    (rows : List TransactionRow) (row : TransactionRow)
    → row_by_id row.txid rows ≡ none
    → row_by_id row.txid (rows ++ row ∷ []) ≡ some row
unfolding row_by_id
row_by_id-append [] row h = rw (eq_refl row.txid)
row_by_id-append (r ∷ rows) row h = elim (Bool-cases (str_eq r.txid row.txid)) [
  | inl same ↦ absurd (ground (arith, same, h))
  | inr apart ↦ rw apart (row_by_id-append rows row (rw apart at h))
]

-- A transaction that is read has the columns of its row.
pub row_to_transaction-columns :
    (codec : Codec) (row : TransactionRow) {t : Transaction}
    → row_to_transaction codec row ≡ ok t
    → (row.txid ≡ t.tx_id)
      × (row.root_before ≡ t.root_before)
      × (row.version_before ≡ t.version_before)
      × (row.version_after ≡ t.version_after)
unfolding row_to_transaction
row_to_transaction-columns codec row h =
    let (envelope, read, rest) = >>=-eq-ok (read_envelope codec row) _ h in
    let (ops, read_ops, made) = >>=-eq-ok (read_write_set codec row) _ rest in (cc, cc, cc, cc)
