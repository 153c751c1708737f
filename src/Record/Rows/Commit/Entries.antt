-- ===== src/Record/Rows/Commit/Entries.antt =====
-- The rows of the transactions that commits write: what each records, how they follow each other, and
-- what a change that is not yet or already recorded adds to them (internal/core/core.go, `commit`).
use mathlib.Core.Path.{subst}
use mathlib.Core.List.{append-nil, append_assoc}
use container_app_service_mo.Base.{
  ℕ, ◌+◌, ◌≡◌, ◌⊎◌, refl, sym, ap, ◌∙◌, Bool, List, [], ◌∷◌, ◌++◌, String, Option, none, some, inl,
  inr,
}
use container_app_service_mo.Base.Results.{Result, ok, err, >>=-eq-ok}
use container_app_service_mo.Base.Text.{Text}
use container_app_service_mo.Record.{Envelope, EnvelopeError, validate, tx_id}
use container_app_service_mo.Record.Rows.{Value, Decoders, WriteOp, Tables, ApplyError, apply}
use container_app_service_mo.Record.Rows.Stored.{
  Codec, Transaction, TransactionRow, ReadError, row_by_id, row_to_transaction, read_found,
  some_read,
}
use container_app_service_mo.Record.Rows.Stored.Found.{row_by_id-append, row_to_transaction-columns}
use container_app_service_mo.Record.Rows.Commit.{
  Ledger, Engine, Identified, CommitError, bad_envelope, not_read, as_commit_error, encoded,
  check_ops, transaction_row, new_transaction, record_transaction, commit_new, identify,
}

-- A row is the record of a change: its texts are the encodings of a valid envelope and of a write
-- set, its identifier is that of the two texts, and its columns are of the envelope.
pub record IsEntry (sha256_hex : Text → String) (codec : Codec) (row : TransactionRow)
    : Type 0 where
  pub envelope : Envelope
  pub write_set : List WriteOp
  pub valid : validate envelope ≡ ok tt
  pub envelope_encoded : codec.marshal_envelope envelope ≡ some row.envelope
  pub write_set_encoded : codec.marshal_write_set write_set ≡ some row.write_set
  pub hashed : row.txid ≡ tx_id sha256_hex row.envelope row.write_set
  pub kind : row.kind ≡ envelope.kind
  pub tenant : row.tenant ≡ envelope.tenant
  pub created_at : row.created_at ≡ envelope.timestamp

-- The row and a transaction of the same identifier, root and versions: the row has its encodings,
-- or it is what is read from the row.
pub record Keeps (codec : Codec) (row : TransactionRow) (t : Transaction) : Type 0 where
  pub txid : row.txid ≡ t.tx_id
  pub root_before : row.root_before ≡ t.root_before
  pub version_before : row.version_before ≡ t.version_before
  pub version_after : row.version_after ≡ t.version_after
  pub texts :
      ((codec.marshal_envelope t.envelope ≡ some row.envelope)
        × (codec.marshal_write_set t.write_set ≡ some row.write_set))
      ⊎ (row_to_transaction codec row ≡ ok t)

module _ (sha256_hex : Text → String) (codec : Codec) where
  -- The rows that may follow, from a version on: each is the record of a change, advances the
  -- version by one, and has an identifier that none before it has.
  abbrev pub Follows : List TransactionRow → ℕ → List TransactionRow → ℕ → Type 0
  Follows earlier from [] to = from ≡ to
  Follows earlier from (t ∷ ts) to =
      IsEntry sha256_hex codec t
      × (t.version_before ≡ from)
      × (t.version_after ≡ from + 1)
      × (row_by_id t.txid earlier ≡ none)
      × Follows (earlier ++ t ∷ []) (from + 1) ts to

  -- The transactions lead from version `start` to the ledger's.
  abbrev pub IsSound : ℕ → Ledger → Type 0
  IsSound start l = Follows [] start l.transactions l.version

  Follows-append :
      (earlier : List TransactionRow) (from : ℕ) (ts : List TransactionRow) {to : ℕ}
      (t : TransactionRow)
      → Follows earlier from ts to
      → IsEntry sha256_hex codec t
      → t.version_before ≡ to
      → t.version_after ≡ to + 1
      → row_by_id t.txid (earlier ++ ts) ≡ none
      → Follows earlier from (ts ++ t ∷ []) (to + 1)
  Follows-append earlier from [] {to} t h entry vb va fresh =
      let e : from ≡ to = h in
      (
        entry,
        vb ∙ sym e,
        va ∙ ap (λ v. v + 1) (sym e),
        ap (row_by_id t.txid) (sym (append-nil earlier)) ∙ fresh,
        ap (λ v. v + 1) e,
      )
  Follows-append earlier from (u ∷ ts) {to} t h entry vb va fresh = (
    h.0,
    h.1,
    h.2,
    h.3,
    Follows-append (earlier ++ u ∷ []) (from + 1) ts t h.4 entry vb va
        (ap (row_by_id t.txid) (append_assoc earlier (u ∷ []) ts) ∙ fresh),
  )

encoded-some : (o : Option Text) {t : Text} → encoded o ≡ ok t → o ≡ some t
encoded-some none h = cc
encoded-some (some u) h = cc

as_ok :
    (r : Result EnvelopeError (Unit {0})) {done : Unit {0}}
    → as_commit_error bad_envelope r ≡ ok done
    → r ≡ ok tt
as_ok (ok u) h = refl
as_ok (err e) h = cc

module _ (same : Value → Value → Bool) (d : Decoders) (sha256_hex : Text → String) (codec : Codec)
    (engine : Engine) where
  -- The entry for a change, of which an identifier and the encodings are known.
  abbrev pub IsIdentified : Envelope → List WriteOp → Identified → Type 0
  IsIdentified env ops i =
      (validate env ≡ ok tt)
      × (codec.marshal_envelope env ≡ some i.envelope)
      × (codec.marshal_write_set ops ≡ some i.write_set)
      × (i.txid ≡ tx_id sha256_hex i.envelope i.write_set)

  pub identify-IsIdentified :
      (env : Envelope) (ops : List WriteOp) {i : Identified}
      → identify same d sha256_hex codec engine env ops ≡ ok i
      → IsIdentified env ops i
  unfolding identify
  identify-IsIdentified env ops {i} h =
      let (done, valid, rest) = >>=-eq-ok (as_commit_error bad_envelope (validate env)) _ h in
      let (checked, passed, encodings) = >>=-eq-ok (check_ops ops) _ rest in
      let (e, e_encoded, later) = >>=-eq-ok (encoded (codec.marshal_envelope env)) _ encodings in
      let (w, w_encoded, made) = >>=-eq-ok (encoded (codec.marshal_write_set ops)) _ later in
      let made_of : record { txid = tx_id sha256_hex e w; envelope = e; write_set = w } ≡ i = cc in
      subst (IsIdentified env ops) made_of (
        as_ok (validate env) valid,
        encoded-some (codec.marshal_envelope env) e_encoded,
        encoded-some (codec.marshal_write_set ops) w_encoded,
        refl,
      )

  abbrev pub new :
      Ledger
      → Identified
      → Envelope
      → List WriteOp
      → Result ReadError (Option Transaction)
      → Ledger × Result CommitError Transaction
  new = commit_new same d sha256_hex codec engine

  -- Where a row is found, nothing changes and the answer is what is read from it.
  pub commit_new-read :
      (l : Ledger) (i : Identified) (env : Envelope) (ops : List WriteOp)
      (r : Result ReadError Transaction)
      → new l i env ops (some_read r) ≡ (l, as_commit_error not_read r)
  unfolding commit_new
  commit_new-read l i env ops (err e) = refl
  commit_new-read l i env ops (ok t) = refl

  module _ (start : ℕ) (l : Ledger) (env : Envelope) (ops : List WriteOp) (i : Identified) where
    pub commit_new-IsSound :
        (found : Option TransactionRow)
        → IsSound sha256_hex codec start l
        → IsIdentified env ops i
        → row_by_id i.txid l.transactions ≡ found
        → IsSound sha256_hex codec start (new l i env ops (read_found codec found)).0
    unfolding commit_new record_transaction transaction_row
    commit_new-IsSound (some row) sound known looked =
        rw (commit_new-read l i env ops (row_to_transaction codec row)) sound
    commit_new-IsSound none sound known looked =
        recorded (apply same d i.txid ops env.refs l.tables)
      where
        recorded :
            (r : Result ApplyError Tables)
            → IsSound sha256_hex codec start
                (record_transaction same d sha256_hex codec engine l i env ops r).0
        recorded (err e) = sound
        recorded (ok tables) =
            Follows-append sha256_hex codec [] start l.transactions _ sound
              (record {
                envelope = env;
                write_set = ops;
                valid = known.0;
                envelope_encoded = known.1;
                write_set_encoded = known.2;
                hashed = known.3;
                kind = refl;
                tenant = refl;
                created_at = refl;
              })
              refl refl looked

    -- The row that a successful commit leaves under the identifier.
    pub commit_new-Keeps :
        (found : Option TransactionRow) {t : Transaction}
        → IsIdentified env ops i
        → row_by_id i.txid l.transactions ≡ found
        → (new l i env ops (read_found codec found)).1 ≡ ok t
        → (row : TransactionRow) × (row_by_id i.txid
              (new l i env ops (read_found codec found)).0.transactions
            ≡ some row)
          × Keeps codec row t
    unfolding commit_new record_transaction transaction_row new_transaction
    commit_new-Keeps (some row) {t} known looked h = read_back (row_to_transaction codec row) refl h
      where
        read_back :
            (r : Result ReadError Transaction)
            → row_to_transaction codec row ≡ r
            → (new l i env ops (some_read r)).1 ≡ ok t
            → (row' : TransactionRow) × (row_by_id i.txid
                  (new l i env ops (some_read r)).0.transactions
                ≡ some row')
              × Keeps codec row' t
        read_back (err e) reads h = cc
        read_back (ok u) reads h =
            let read : row_to_transaction codec row ≡ ok t = cc in
            let (a, b, c, e) = row_to_transaction-columns codec row read in
            (
              row,
              looked,
              record {
                txid = a;
                root_before = b;
                version_before = c;
                version_after = e;
                texts = inr read;
              },
            )
    commit_new-Keeps none {t} known looked h =
        recorded (apply same d i.txid ops env.refs l.tables) h
      where
        recorded :
            (r : Result ApplyError Tables)
            → (record_transaction same d sha256_hex codec engine l i env ops r).1 ≡ ok t
            → (row : TransactionRow) × (row_by_id i.txid
                  (record_transaction same d sha256_hex codec engine l i env ops r).0.transactions
                ≡ some row)
              × Keeps codec row t
        recorded (err e) h = cc
        recorded (ok tables) h =
            let made : new_transaction l i.txid env ops ≡ t = cc in
            (
              transaction_row (engine.next_seq l.transactions) l i env,
              row_by_id-append l.transactions
                  (transaction_row (engine.next_seq l.transactions) l i env) looked,
              subst (Keeps codec (transaction_row (engine.next_seq l.transactions) l i env)) made
                  (record {
                    txid = refl;
                    root_before = refl;
                    version_before = refl;
                    version_after = refl;
                    texts = inl (known.1, known.2);
                  }),
            )
