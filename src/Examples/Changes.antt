-- ===== src/Examples/Changes.antt =====
-- A change of a component and its record, and the theorems on the record at it (internal/model,
-- internal/core/core.go).
use container_app_service_mo.Base.{
  ◌≡◌, ◌⊎◌, ◌∙◌, sym, refl, Bool, true, false, List, [], ◌∷◌, ◌++◌, String, arith, Option, none,
  some,
}
use container_app_service_mo.Base.Int.{pos}
use container_app_service_mo.Base.Results.{ok, err}
use container_app_service_mo.Base.Text.{Text, is_blank}
use container_app_service_mo.Record.{
  validate, framed, txid_domain, tx_id, reading_envelope, stopped_summary,
}
use container_app_service_mo.Record.Identity.{Collision, tx_id-binds}
use container_app_service_mo.Record.Message.{reading_envelope-accepted}
use container_app_service_mo.Record.Refused.{reading_envelope-refused}
use container_app_service_mo.Record.Rows.{
  Value, str, WriteOp, Decoders, Row, Tables, apply_ops, apply_one, columns, check_key, key_columns,
  change_rows, lookup, overlay, set_table, substitute, upsert_rows, update_rows,
}
use container_app_service_mo.Record.Rows.View.{IsEquality}
use container_app_service_mo.Record.Rows.Refined.{row_of, apply_ops-replays, apply_ops-effects}
use container_app_service_mo.Record.Rows.Replay.{effects}
use text.Mathlib.Text.{◌==◌ as str_eq}
use text.Mathlib.TextEquality.{eq_iff}

-- "API".
abbrev pub api_name : Text
api_name = 65 ∷ 80 ∷ 73 ∷ []

-- "EU".
abbrev eu : Text
eu = 69 ∷ 85 ∷ []

-- The length of a text, as a hash: it has collisions.
abbrev pub hash : Text → String
hash [] = "0"
hash (b ∷ []) = "1"
hash (b ∷ c ∷ s) = "many"

same_identifier : tx_id hash api_name eu ≡ tx_id hash eu eu
unfolding tx_id
same_identifier = refl

-- The hash is too short to tell two changes apart.
tx_id-binds_example :
    ((api_name ≡ eu) × (eu ≡ eu))
    ⊎ Collision hash (txid_domain ++ framed api_name eu) (txid_domain ++ framed eu eu)
tx_id-binds_example =
    tx_id-binds hash api_name eu eu eu (omega arith) (omega arith) (omega arith) (omega arith)
      same_identifier

reading_envelope-accepted_example :
    validate (reading_envelope "acme" "shop" ("smp_1" ∷ []) (pos 1700000000) api_name) ≡ ok tt
reading_envelope-accepted_example =
    reading_envelope-accepted "acme" "shop" ("smp_1" ∷ []) (pos 1700000000) api_name refl refl
      (omega arith)

eu_not_blank : is_blank eu ≡ false
unfolding is_blank
eu_not_blank = refl

-- The monitor of the name "API.", a line break, "EU".
reading_envelope-refused_example :
    validate (
      reading_envelope "acme" "shop"
        ("smp_1" ∷ [])
        (pos 1700000000)
        (65 ∷ 80 ∷ 73 ∷ 46 ∷ 10 ∷ 69 ∷ 85 ∷ []))
    ≡ err stopped_summary
reading_envelope-refused_example =
    reading_envelope-refused 65 (80 ∷ 73 ∷ []) eu (omega arith) (omega arith) (omega arith)
      eu_not_blank "acme" "shop" ("smp_1" ∷ []) (pos 1700000000) refl refl

-- Equality of texts, and nothing else.
abbrev pub text_of : Value → Option String
text_of (str a) = some a
text_of _ = none

abbrev pub same_option : Option String → Option String → Bool
same_option none b = false
same_option (some a) none = false
same_option (some a) (some b) = str_eq a b

abbrev pub same_text : Value → Value → Bool
same_text a b = same_option (text_of a) (text_of b)

same_option_sym : (a b : Option String) → same_option a b ≡ true → same_option b a ≡ true
same_option_sym none b h = cc
same_option_sym (some a) none h = cc
same_option_sym (some a) (some b) h = (eq_iff b a).1 (sym ((eq_iff a b).0 h))

same_option_trans :
    (a b c : Option String)
    → same_option a b ≡ true
    → same_option b c ≡ true
    → same_option a c ≡ true
same_option_trans none b c h k = cc
same_option_trans (some a) none c h k = cc
same_option_trans (some a) (some b) none h k = cc
same_option_trans (some a) (some b) (some c) h k =
    (eq_iff a c).1 ((eq_iff a b).0 h ∙ (eq_iff b c).0 k)

same_text-IsEquality : IsEquality same_text
same_text-IsEquality = record {
  symmetric = λ a b. same_option_sym (text_of a) (text_of b);
  transitive = λ a b c. same_option_trans (text_of a) (text_of b) (text_of c);
}

abbrev pub decoders : Decoders
decoders = record {
  base64 = λ s. none;
  whole = λ f. none;
  parse_int = λ s. none;
  parse_float = λ s. 0;
}

abbrev pub rename : List WriteOp
rename =
    record {
      table = "components";
      key = ("id", str "cmp_1") ∷ [];
      values = ("name", str "API") ∷ ("txid", str "$txid") ∷ [];
      delete = false;
    }
    ∷ record { table = "states"; key = ("subject", str "cmp_1") ∷ []; values = []; delete = true }
    ∷ []

abbrev pub no_rows : Tables
no_rows name = []

-- The row of the component, with the identifier of the transaction.
abbrev api_row : Row
api_row =
    overlay (columns decoders "tx1" (("id", str "cmp_1") ∷ []))
      (columns decoders "tx1" (("name", str "API") ∷ ("txid", str "$txid") ∷ []))

abbrev renamed : Tables
renamed = set_table "states" [] (set_table "components" (api_row ∷ []) no_rows)

rename_applied : apply_ops same_text decoders "tx1" rename no_rows ≡ ok renamed
unfolding apply_ops apply_one key_columns check_key columns substitute change_rows upsert_rows
    update_rows
rename_applied = refl

apply_ops-replays_example :
    (db'' : Tables) × (apply_ops same_text decoders "tx1" rename renamed ≡ ok db'')
    × ((table : String) (key : Row)
        → row_of same_text db'' table key ≡ row_of same_text renamed table key)
unfolding lookup
apply_ops-replays_example =
    apply_ops-replays same_text same_text-IsEquality decoders "tx1" rename no_rows
      ((refl, tt), ((refl, tt), tt)) rename_applied

apply_ops-effects_example :
    row_of same_text renamed "components" api_row
    ≡ effects same_text decoders "tx1" "components" api_row rename none
unfolding lookup row_of
apply_ops-effects_example =
    apply_ops-effects same_text same_text-IsEquality decoders "tx1" rename no_rows
      ((refl, tt), ((refl, tt), tt)) rename_applied "components" api_row
