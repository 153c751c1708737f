-- ===== src/Record/Rows/View.antt =====
-- The tables as a map from keys to rows: what an effect does to the row of a key
-- (internal/core/core.go, `applyOne`).
use container_app_service_mo.Base.{
  ◌≡◌, refl, sym, ap, ◌∙◌, Bool, true, false, not, List, [], ◌∷◌, ◌++◌, String, Option, none, some,
  arith, if◌then◌else◌, select, any, All, Bool-cases, inl, inr, if_both,
}
use container_app_service_mo.Record.Rows.{
  Value, WriteOp, Decoders, Row, map_some, or_else, columns, overlay, same_at, matches, update_rows,
  upsert_rows, change_rows,
}

-- The equality of values in the engine.
pub record IsEquality (same : Value → Value → Bool) : Type 0 where
  pub symmetric : (a b : Value) → same a b ≡ true → same b a ≡ true
  pub transitive : (a b c : Value) → same a b ≡ true → same b c ≡ true → same a c ≡ true

-- The row of a key: the first that matches.
module _ (same : Value → Value → Bool) (cols : List String) where
  unfoldable pub find : Row → List Row → Option Row
  find key [] = none
  find key (row ∷ rows) = if matches same cols key row then some row else find key rows

abbrev is_some : Option Row → Bool
is_some none = false
is_some (some row) = true

-- An upsert of the row of a key.
abbrev pub written : Row → Row → Option Row → Row
written key values none = overlay key values
written key values (some row) = overlay values row

-- The effect on the row of its own key.
unfoldable pub effect_on : Decoders → String → WriteOp → Option Row → Option Row
effect_on d txid op o =
    if op.delete then none else some (written (columns d txid op.key) (columns d txid op.values) o)

module _ (same : Value → Value → Bool) (eq : IsEquality same) where
  same_at_sym : (a b : Option Value) → same_at same a b ≡ true → same_at same b a ≡ true
  same_at_sym none b h = cc
  same_at_sym (some a) none h = cc
  same_at_sym (some a) (some b) h = eq.symmetric a b h

  same_at_trans :
      (a b c : Option Value)
      → same_at same a b ≡ true
      → same_at same b c ≡ true
      → same_at same a c ≡ true
  same_at_trans none b c h k = cc
  same_at_trans (some a) none c h k = cc
  same_at_trans (some a) (some b) none h k = cc
  same_at_trans (some a) (some b) (some c) h k = eq.transitive a b c h k

  matches_sym :
      (cols : List String) (a b : Row) → matches same cols a b ≡ true → matches same cols b a ≡ true
  matches_sym [] a b h = refl
  matches_sym (col ∷ cols) a b h = ground (arith, same_at_sym (a col) (b col), matches_sym cols a b)

  matches_trans :
      (cols : List String) (a b c : Row)
      → matches same cols a b ≡ true
      → matches same cols b c ≡ true
      → matches same cols a c ≡ true
  matches_trans [] a b c h k = refl
  matches_trans (col ∷ cols) a b c h k =
      ground (arith, same_at_trans (a col) (b col) (c col), matches_trans cols a b c)

  -- Setting other columns.
  matches-overlay :
      (cols : List String) (key over row : Row)
      → All (λ col. over col ≡ none) cols
      → matches same cols key (overlay over row) ≡ matches same cols key row
  matches-overlay [] key over row h = refl
  matches-overlay (col ∷ cols) key over row h =
      ground (arith, h.0, matches-overlay cols key over row h.1)

  matches-inserted :
      (cols : List String) (key' key values : Row)
      → All (λ col. values col ≡ none) cols
      → matches same cols key' (overlay key values) ≡ matches same cols key' key
  matches-inserted [] key' key values h = refl
  matches-inserted (col ∷ cols) key' key values h =
      ground
        (arith, own_column (key col) (values col) h.0, matches-inserted cols key' key values h.1)
    where
      own_column : (a b : Option Value) → b ≡ none → or_else a b ≡ a
      own_column none b e = e
      own_column (some a) b e = refl

  module _ (cols : List String) (key values : Row) (keeps : All (λ col. values col ≡ none) cols)
      (key' : Row) where
    -- The key looked for is the one changed.
    module _ (own : matches same cols key' key ≡ true) where
      matches_eq : (row : Row) → matches same cols key row ≡ matches same cols key' row
      matches_eq row = ground (
        arith,
        matches_sym cols key' key own,
        matches_trans cols key' key row own,
        matches_trans cols key key' row,
      )

      find-update_own :
          (rows : List Row)
          → find same cols key' (update_rows same cols key values rows)
            ≡ map_some (overlay values) (find same cols key' rows)
      unfolding find update_rows
      find-update_own [] = refl
      find-update_own (row ∷ rows) = elim (Bool-cases (matches same cols key row)) [
        | inl on ↦
            let on' : matches same cols key' row ≡ true = sym (matches_eq row) ∙ on in
            rw (on, matches-overlay cols key' values row keeps, on')
        | inr off ↦
            let off' : matches same cols key' row ≡ false = sym (matches_eq row) ∙ off in
            rw (off, off') (find-update_own rows)
      ]

      -- A row is inserted exactly where the key has none.
      find-upsert_own :
          (rows : List Row)
          → or_else (find same cols key' rows) (some (overlay key values))
            ≡ find same cols key' (rows ++ overlay key values ∷ [])
      unfolding find
      find-upsert_own [] = rw (matches-inserted cols key' key values keeps, own)
      find-upsert_own (row ∷ rows) = ground (arith, find-upsert_own rows)

      any-find :
          (rows : List Row) → any (matches same cols key) rows ≡ is_some (find same cols key' rows)
      unfolding find
      any-find [] = refl
      any-find (row ∷ rows) = ground (arith, matches_eq row, any-find rows)

      find-delete_own :
          (rows : List Row)
          → find same cols key' (select (λ row. not (matches same cols key row)) rows) ≡ none
      unfolding find
      find-delete_own [] = refl
      find-delete_own (row ∷ rows) = ground (arith, matches_eq row, find-delete_own rows)

    -- Another key.
    module _ (apart : matches same cols key' key ≡ false) where
      not_both : (row : Row) → matches same cols key row ≡ true → matches same cols key' row ≡ false
      not_both row h = ground (arith, matches_sym cols key row, matches_trans cols key' row key)

      find-update_other :
          (rows : List Row)
          → find same cols key' (update_rows same cols key values rows) ≡ find same cols key' rows
      unfolding find update_rows
      find-update_other [] = refl
      find-update_other (row ∷ rows) = elim (Bool-cases (matches same cols key row)) [
        | inl on ↦
            rw (on, matches-overlay cols key' values row keeps, not_both row on)
              (find-update_other rows)
        | inr off ↦ rw off (ground (arith, find-update_other rows))
      ]

      find-insert_other :
          (rows : List Row)
          → find same cols key' (rows ++ overlay key values ∷ []) ≡ find same cols key' rows
      unfolding find
      find-insert_other [] = rw (matches-inserted cols key' key values keeps, apart)
      find-insert_other (row ∷ rows) = ground (arith, find-insert_other rows)

      find-delete_other :
          (rows : List Row)
          → find same cols key' (select (λ row. not (matches same cols key row)) rows)
            ≡ find same cols key' rows
      unfolding find
      find-delete_other [] = refl
      find-delete_other (row ∷ rows) = ground (arith, not_both row, find-delete_other rows)

    -- The row of any key after an upsert, and after a delete.
    find-upsert :
        (rows : List Row)
        → find same cols key' (upsert_rows same cols key values rows) ≡ (
            if matches same cols key' key
            then some (written key values (find same cols key' rows))
            else find same cols key' rows)
    unfolding upsert_rows
    find-upsert rows = elim (Bool-cases (matches same cols key' key)) [
      | inl own ↦ rw own (find_own own (find same cols key' rows) refl)
      | inr apart ↦ rw apart (
          if_both (λ t. find same cols key' t ≡ find same cols key' rows)
            (any (matches same cols key) rows) (update_rows same cols key values rows)
            (rows ++ overlay key values ∷ []) (find-update_other apart rows)
            (find-insert_other apart rows))
    ]
      where
        find_own :
            (own : matches same cols key' key ≡ true) (o : Option Row)
            → find same cols key' rows ≡ o
            → find same cols key' (
                if any (matches same cols key) rows
                then update_rows same cols key values rows
                else rows ++ overlay key values ∷ [])
              ≡ some (written key values (find same cols key' rows))
        find_own own none e =
            rw (any-find own rows, e)
              (sym (find-upsert_own own rows) ∙ ap (λ x. or_else x (some (overlay key values))) e)
        find_own own (some row) e =
            rw (any-find own rows, e) (find-update_own own rows ∙ ap (map_some (overlay values)) e)

    find-delete :
        (rows : List Row)
        → find same cols key' (select (λ row. not (matches same cols key row)) rows)
          ≡ (if matches same cols key' key then none else find same cols key' rows)
    find-delete rows = elim (Bool-cases (matches same cols key' key)) [
      | inl own ↦ rw own (find-delete_own own rows)
      | inr apart ↦ rw apart (find-delete_other apart rows)
    ]

  -- What an effect does to the row of any key of its table.
  pub find-change_rows :
      (d : Decoders) (txid : String) (cols : List String) (op : WriteOp)
      → All (λ col. columns d txid op.values col ≡ none) cols
      → (key' : Row) (rows : List Row)
      → find same cols key' (change_rows same d txid cols op rows) ≡ (
          if matches same cols key' (columns d txid op.key)
          then effect_on d txid op (find same cols key' rows)
          else find same cols key' rows)
  unfolding change_rows effect_on
  find-change_rows d txid cols op keeps key' rows = elim (Bool-cases op.delete) [
    | inl on ↦
        rw on (find-delete cols (columns d txid op.key) (columns d txid op.values) keeps key' rows)
    | inr off ↦
        rw off (find-upsert cols (columns d txid op.key) (columns d txid op.values) keeps key' rows)
  ]
