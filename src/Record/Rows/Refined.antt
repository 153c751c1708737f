-- ===== src/Record/Rows/Refined.antt =====
-- The tables after a write set, and after it is replayed (internal/core/core.go, `apply`).
use mathlib.Core.Path.{subst}
use container_app_service_mo.Base.{
  ◌≡◌, refl, sym, ap, ◌∙◌, Bool, ◌⊎◌, List, [], ◌∷◌, String, Option, none, some, arith,
  if◌then◌else◌, All, Bool-cases, Option-cases, inl, inr,
}
use container_app_service_mo.Base.Results.{ok, ◌>>=◌, ◌>>◌, >>=-eq-ok}
use container_app_service_mo.Record.Rows.{
  Value, WriteOp, Decoders, Row, Tables, columns, matches, change_rows, key_columns, check_key,
  set_table, apply_one, apply_ops,
}
use container_app_service_mo.Record.Rows.View.{IsEquality, find, effect_on, find-change_rows}
use container_app_service_mo.Record.Rows.Replay.{
  KeepsKey, columns-disjoint, concerns, effects, effects-twice,
}
use text.Mathlib.Text.{◌==◌ as str_eq}
use text.Mathlib.TextEquality.{eq_iff}

no_value :
    (key value : Option Value)
    → (key ≡ none) ⊎ (value ≡ none)
    → {v : Value} → key ≡ some v
    → value ≡ none
no_value key value (inl absent) present = absurd (ground (arith, absent, present))
no_value key value (inr e) present = e

check_key-keeps :
    (cols : List String) (key values : Row) {done : Unit {0}}
    → ((col : String) → (key col ≡ none) ⊎ (values col ≡ none))
    → check_key cols key ≡ ok done
    → All (λ col. values col ≡ none) cols
unfolding check_key
check_key-keeps [] key values disjoint h = tt
check_key-keeps (col ∷ cols) key values disjoint h = elim (Option-cases (key col)) [
  | inl missing ↦ absurd (ground (arith, missing, h))
  | inr (v, present) ↦ (
    no_value (key col) (values col) (disjoint col) present,
    check_key-keeps cols key values disjoint (rw present at h),
  )
]

-- The row of a key in a table.
unfoldable pub row_of : (Value → Value → Bool) → Tables → String → Row → Option Row
unfolding find
row_of same db table key = find same (key_columns table) key (db table)

module _ (same : Value → Value → Bool) (eq : IsEquality same) (d : Decoders) (txid : String) where
  apply_one-acts :
      (op : WriteOp) (db : Tables) {db' : Tables}
      → KeepsKey op
      → apply_one same d txid op db ≡ ok db'
      → (table : String) (key : Row)
      → row_of same db' table key ≡ (
          if concerns same d txid table key op
          then effect_on d txid op (row_of same db table key)
          else row_of same db table key)
  unfolding apply_one row_of
  apply_one-acts op db {db'} keeps h table key =
      let (checked, passed, made) =
        >>=-eq-ok (check_key (key_columns op.table) (columns d txid op.key)) _ h in
      let e : set_table op.table (change_rows same d txid (key_columns op.table) op (db op.table))
            db
          ≡ db' =
        cc in
      let kept =
        check_key-keeps (key_columns op.table) (columns d txid op.key) (columns d txid op.values)
          (columns-disjoint same eq d txid op keeps) passed in
      subst (λ (t : Tables). row_of_is t) e
        (elim (Bool-cases (str_eq table op.table)) [
          | inl here ↦ rw here (
              subst
                (λ t.
                  find same (key_columns t) key
                    (change_rows same d txid (key_columns op.table) op (db op.table))
                  ≡ (if matches same (key_columns op.table) key (columns d txid op.key)
                      then effect_on d txid op (find same (key_columns t) key (db t))
                      else find same (key_columns t) key (db t)))
                (sym ((eq_iff table op.table).0 here))
                (find-change_rows same eq d txid (key_columns op.table) op kept key (db op.table)))
          | inr there ↦ rw there
        ])
    where
      row_of_is : Tables → Type 0
      row_of_is t = find same (key_columns table) key (t table) ≡ (
          if concerns same d txid table key op
          then effect_on d txid op (find same (key_columns table) key (db table))
          else find same (key_columns table) key (db table))

  -- Where the equality of values is symmetric and transitive and no effect sets a column of its
  -- own key, the row of any key in any table after a write set is the row before it, changed in
  -- turn by those of the effects that name that table and that key: a delete removes it, an upsert
  -- sets its columns or makes it.
  pub apply_ops-effects :
      (ops : List WriteOp) (db : Tables) {db' : Tables}
      → All KeepsKey ops
      → apply_ops same d txid ops db ≡ ok db'
      → (table : String) (key : Row)
      → row_of same db' table key ≡ effects same d txid table key ops (row_of same db table key)
  unfolding apply_ops effects
  apply_ops-effects [] db {db'} keeps h table key =
      let e : db ≡ db' = cc in ap (λ t. row_of same t table key) (sym e)
  apply_ops-effects (op ∷ ops) db {db'} keeps h table key =
      let (next, one, rest) = >>=-eq-ok (apply_one same d txid op db) _ h in
      apply_ops-effects ops next keeps.1 rest table key
      ∙ ap (effects same d txid table key ops) (apply_one-acts op db keeps.0 one table key)

  -- Whether a write set applies does not depend on the tables.
  apply_ops-again :
      (ops : List WriteOp) (db other : Tables) {db' : Tables}
      → apply_ops same d txid ops db ≡ ok db'
      → (other' : Tables) × (apply_ops same d txid ops other ≡ ok other')
  unfolding apply_ops apply_one
  apply_ops-again [] db other h = (other, refl)
  apply_ops-again (op ∷ ops) db other h =
      let (next, one, rest) = >>=-eq-ok (apply_one same d txid op db) _ h in
      let (checked, passed, made) =
        >>=-eq-ok (check_key (key_columns op.table) (columns d txid op.key)) _ one in
      let next' =
        set_table op.table (change_rows same d txid (key_columns op.table) op (other op.table))
          other in
      let (last, again) = apply_ops-again ops next next' rest in
      (
        last,
        ap (λ c. (c >> ok next') >>= (λ changed. apply_ops same d txid ops changed)) passed ∙ again,
      )

  -- Under the same conditions, a write set that was applied can be applied again, and then every
  -- key of every table has the row that it had after the first time.
  pub apply_ops-replays :
      (ops : List WriteOp) (db : Tables) {db' : Tables}
      → All KeepsKey ops
      → apply_ops same d txid ops db ≡ ok db'
      → (db'' : Tables) × (apply_ops same d txid ops db' ≡ ok db'')
        × ((table : String) (key : Row) → row_of same db'' table key ≡ row_of same db' table key)
  apply_ops-replays ops db {db'} keeps h =
      let (db'', again) = apply_ops-again ops db db' h in
      (
        db'',
        again,
        λ table key.
            let once = apply_ops-effects ops db keeps h table key in
            apply_ops-effects ops db' keeps again table key
            ∙ ap (effects same d txid table key ops) once
            ∙ effects-twice same eq d txid table key ops keeps (row_of same db table key)
            ∙ sym once,
      )
