-- ===== src/Record/Rows/Replay.antt =====
-- Applying a write set, as a change of the row of each key, and applying it again
-- (internal/core/core.go, `apply`).
use mathlib.Core.Path.{fun_ext}
use container_app_service_mo.Base.{
  ◌≡◌, refl, sym, ap, ◌∙◌, Bool, ◌&&◌, ◌⊎◌, List, [], ◌∷◌, String, Option, none, some,
  if◌then◌else◌, All, Bool-cases, inl, inr,
}
use container_app_service_mo.Record.Rows.{
  Value, WriteOp, Decoders, Row, lookup, or_else, columns, overlay, matches, key_columns,
}
use container_app_service_mo.Record.Rows.View.{IsEquality, written, effect_on}
use text.Mathlib.Text.{◌==◌ as str_eq}
use text.Mathlib.TextEquality.{eq_iff}

-- No column of the key is among the values.
abbrev pub KeepsKey : WriteOp → Type 0
KeepsKey op = All (λ (f : String × Value). lookup f.0 op.values ≡ none) op.key

-- Whatever the row is, the change gives one row, or it sets some columns.
record IsOverlay (c : Option Row → Option Row) : Type 0 where
  over : Row
  on_some : (row : Row) → c (some row) ≡ some (overlay over row)
  on_none :
      ((c none ≡ none) × ((col : String) → over col ≡ none))
      ⊎ ((base : Row) × (c none ≡ some base)
          × ((col : String) → or_else (over col) (base col) ≡ base col))

abbrev IsSettling : (Option Row → Option Row) → Type 0
IsSettling c = ((o : Option Row) → c o ≡ c none) ⊎ IsOverlay c

or_else_twice {ℓ} : {A : Type ℓ} (a b : Option A) → or_else a (or_else a b) ≡ or_else a b
or_else_twice none b = refl
or_else_twice (some a) b = refl

or_else_assoc {ℓ} :
    {A : Type ℓ} (a b c : Option A) → or_else a (or_else b c) ≡ or_else (or_else a b) c
or_else_assoc none b c = refl
or_else_assoc (some a) b c = refl

or_else-none {ℓ} : {A : Type ℓ} (a : Option A) → or_else a none ≡ a
or_else-none none = refl
or_else-none (some a) = refl

or_else_over {ℓ} :
    {A : Type ℓ} (a b c : Option A)
    → or_else b c ≡ c
    → or_else (or_else a b) (or_else a c) ≡ or_else a c
or_else_over none b c h = h
or_else_over (some a) b c h = refl

-- A change of this kind made twice is made once.
IsSettling-twice : (c : Option Row → Option Row) → IsSettling c → (o : Option Row) → c (c o) ≡ c o
IsSettling-twice c (inl fixed) o = fixed (c o) ∙ sym (fixed o)
IsSettling-twice c (inr w) (some row) =
    ap c (w.on_some row)
    ∙ w.on_some (overlay w.over row)
    ∙ ap some (fun_ext (λ col. or_else_twice (w.over col) (row col)))
    ∙ sym (w.on_some row)
IsSettling-twice c (inr w) none = on_none w.on_none
  where
    on_none :
        ((c none ≡ none) × ((col : String) → w.over col ≡ none))
          ⊎ ((base : Row) × (c none ≡ some base)
              × ((col : String) → or_else (w.over col) (base col) ≡ base col))
        → c (c none) ≡ c none
    on_none (inl gone) = ap c gone.0
    on_none (inr (base, e, same)) = ap c e ∙ w.on_some base ∙ ap some (fun_ext same) ∙ sym e

module _ (key values : Row)
    (disjoint : (col : String) → (key col ≡ none) ⊎ (values col ≡ none)) where
  inserted_twice :
      (col : String)
      → or_else (values col) (or_else (key col) (values col)) ≡ or_else (key col) (values col)
  inserted_twice col = elim (disjoint col) [
    | inl no_key ↦ rw no_key (or_else_same (values col))
    | inr no_value ↦ rw no_value
  ]
    where
      or_else_same : (a : Option Value) → or_else a a ≡ a
      or_else_same none = refl
      or_else_same (some a) = refl

  written-IsSettling :
      (c : Option Row → Option Row)
      → IsSettling c
      → IsSettling (λ o. some (written key values (c o)))
  written-IsSettling c (inl fixed) = inl (λ o. ap (λ x. some (written key values x)) (fixed o))
  written-IsSettling c (inr w) = inr (record {
    over = overlay values w.over;
    on_some = λ row.
        ap (λ x. some (written key values x)) (w.on_some row)
        ∙ ap some (fun_ext (λ col. or_else_assoc (values col) (w.over col) (row col)));
    on_none = inr (on_none w.on_none);
  })
    where
      on_none :
          ((c none ≡ none) × ((col : String) → w.over col ≡ none))
            ⊎ ((base : Row) × (c none ≡ some base)
                × ((col : String) → or_else (w.over col) (base col) ≡ base col))
          → (base : Row) × (some (written key values (c none)) ≡ some base)
            × ((col : String) → or_else (or_else (values col) (w.over col)) (base col) ≡ base col)
      on_none (inl (gone, nothing)) = (
        overlay key values,
        ap (λ x. some (written key values x)) gone,
        λ col.
            ap (λ x. or_else (or_else (values col) x) (overlay key values col)) (nothing col)
            ∙ ap (λ x. or_else x (overlay key values col)) (or_else-none (values col))
            ∙ inserted_twice col,
      )
      on_none (inr (base, e, same)) = (
        overlay values base,
        ap (λ x. some (written key values x)) e,
        λ col. or_else_over (values col) (w.over col) (base col) (same col),
      )

lookup-disjoint :
    (col : String) (key values : List (String × Value))
    → All (λ (f : String × Value). lookup f.0 values ≡ none) key
    → (lookup col key ≡ none) ⊎ (lookup col values ≡ none)
unfolding lookup
lookup-disjoint col [] values h = inl refl
lookup-disjoint col ((name, v) ∷ key) values h = elim (Bool-cases (str_eq name col)) [
  | inl same ↦ inr (ap (λ c. lookup c values) (sym ((eq_iff name col).0 same)) ∙ h.0)
  | inr apart ↦ rw apart (lookup-disjoint col key values h.1)
]

-- The change that a write set makes to the row of a key.
module _ (same : Value → Value → Bool) (d : Decoders) (txid table : String) (key : Row) where
  abbrev pub concerns : WriteOp → Bool
  concerns op =
      str_eq table op.table && matches same (key_columns op.table) key (columns d txid op.key)

  unfoldable pub effects : List WriteOp → Option Row → Option Row
  effects [] o = o
  effects (op ∷ ops) o = effects ops (if concerns op then effect_on d txid op o else o)

module _ (same : Value → Value → Bool) (eq : IsEquality same) (d : Decoders) (txid : String) where
  pub columns-disjoint :
      (op : WriteOp)
      → KeepsKey op
      → (col : String) → (columns d txid op.key col ≡ none) ⊎ (columns d txid op.values col ≡ none)
  unfolding columns
  columns-disjoint op keeps col = elim (lookup-disjoint col op.key op.values keeps) [
    | inl no_key ↦ inl (rw no_key)
    | inr no_value ↦ inr (rw no_value)
  ]

  module _ (table : String) (key : Row) where
    abbrev concerned : WriteOp → Bool
    concerned = concerns same d txid table key

    abbrev changed : List WriteOp → Option Row → Option Row
    changed = effects same d txid table key

    effect_on-IsSettling :
        (op : WriteOp) (c : Option Row → Option Row)
        → KeepsKey op
        → IsSettling c
        → IsSettling (λ o. if concerned op then effect_on d txid op (c o) else c o)
    unfolding effect_on
    effect_on-IsSettling op c keeps h = elim (Bool-cases (concerned op)) [
      | inl on ↦ elim (Bool-cases op.delete) [
        | inl gone ↦ rw (on, gone) (inl (λ o. refl))
        | inr kept ↦
            rw (on, kept)
              (written-IsSettling (columns d txid op.key) (columns d txid op.values)
                (columns-disjoint op keeps) c h)
      ]
      | inr off ↦ rw off h
    ]

    effects-IsSettling :
        (ops : List WriteOp) (c : Option Row → Option Row)
        → All KeepsKey ops
        → IsSettling c
        → IsSettling (λ o. changed ops (c o))
    unfolding effects
    effects-IsSettling [] c keeps h = h
    effects-IsSettling (op ∷ ops) c keeps h =
        effects-IsSettling ops (λ o. if concerned op then effect_on d txid op (c o) else c o)
          keeps.1 (effect_on-IsSettling op c keeps.0 h)

    identity-IsSettling : IsSettling (λ o. o)
    identity-IsSettling =
        inr
          (record { over = λ col. none; on_some = λ row. refl; on_none = inl (refl, λ col. refl) })

    pub effects-twice :
        (ops : List WriteOp)
        → All KeepsKey ops
        → (o : Option Row) → changed ops (changed ops o) ≡ changed ops o
    effects-twice ops keeps =
        IsSettling-twice (changed ops) (effects-IsSettling ops (λ o. o) keeps identity-IsSettling)
