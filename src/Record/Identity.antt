-- ===== src/Record/Identity.antt =====
-- The identifier of a transaction is bound to its envelope and its write set
-- (internal/model/envelope.go, `TxID`).
use container_app_service_mo.Base.{
  ℕ, zero, suc, ◌*◌, ◌/◌, ◌%◌, ◌<◌, ◌≡◌, ◌≢◌, ◌⊎◌, inl, inr, refl, sym, ◌∙◌, [], ◌∷◌, ◌++◌, String,
  arith, length,
}
use mathlib.Core.List.{append-nil}
use container_app_service_mo.Base.Text.{Text}
use container_app_service_mo.Record.{low_bytes, put_uint64, framed, txid_domain, tx_id}
use native.Mathlib.Decide.{ℕ_discrete}

-- 256 ^ n.
abbrev pub bytes_mod : ℕ → ℕ
bytes_mod zero = 1
bytes_mod (suc n) = 256 * bytes_mod n

low_bytes-injective :
    (n v v' : ℕ) (rest rest' : Text)
    → v < bytes_mod n
    → v' < bytes_mod n
    → low_bytes n v rest ≡ low_bytes n v' rest'
    → (v ≡ v') × (rest ≡ rest')
unfolding low_bytes
low_bytes-injective zero v v' rest rest' h h' e = (omega arith, e)
low_bytes-injective (suc n) v v' rest rest' h h' e =
    let (high, tails) =
      low_bytes-injective n (v / 256) (v' / 256) (v % 256 ∷ rest) (v' % 256 ∷ rest') (omega arith)
        (omega arith) e in
    let low : v % 256 ≡ v' % 256 = cc in (omega arith, cc)

low_bytes-append :
    (n v : ℕ) (rest tail : Text) → low_bytes n v rest ++ tail ≡ low_bytes n v (rest ++ tail)
unfolding low_bytes
low_bytes-append zero v rest tail = refl
low_bytes-append (suc n) v rest tail = low_bytes-append n (v / 256) (v % 256 ∷ rest) tail

append-injective :
    (xs xs' ys ys' : Text)
    → length xs ≡ length xs'
    → xs ++ ys ≡ xs' ++ ys'
    → (xs ≡ xs') × (ys ≡ ys')
append-injective [] [] ys ys' l e = (refl, e)
append-injective [] (x' ∷ xs') ys ys' l e = absurd (omega arith)
append-injective (x ∷ xs) [] ys ys' l e = absurd (omega arith)
append-injective (x ∷ xs) (x' ∷ xs') ys ys' l e =
    let rest = append-injective xs xs' ys ys' (omega arith) (cc) in
    (let first : x ≡ x' = cc in cc (first, rest.0), rest.1)

-- A length and the text of that length, read off the front.
prefixed-injective :
    (xs xs' ys ys' : Text)
    → length xs < bytes_mod 8
    → length xs' < bytes_mod 8
    → put_uint64 (length xs) ++ (xs ++ ys) ≡ put_uint64 (length xs') ++ (xs' ++ ys')
    → (xs ≡ xs') × (ys ≡ ys')
unfolding put_uint64
prefixed-injective xs xs' ys ys' h h' e =
    let (lengths, tails) =
      low_bytes-injective 8 (length xs) (length xs') (xs ++ ys) (xs' ++ ys') h h' (
        sym (low_bytes-append 8 (length xs) [] (xs ++ ys))
        ∙ e
        ∙ low_bytes-append 8 (length xs') [] (xs' ++ ys')) in
    append-injective xs xs' ys ys' lengths tails

-- A change and the reason for it are read back from what is hashed.
framed-injective :
    (e e' w w' : Text)
    → length e < bytes_mod 8
    → length e' < bytes_mod 8
    → length w < bytes_mod 8
    → length w' < bytes_mod 8
    → framed e w ≡ framed e' w'
    → (e ≡ e') × (w ≡ w')
unfolding framed
framed-injective e e' w w' he he' hw hw' same =
    let (es, rests) = prefixed-injective e e' _ _ he he' same in
    let padded : put_uint64 (length w) ++ (w ++ []) ≡ put_uint64 (length w') ++ (w' ++ []) =
      rw (append-nil w, append-nil w') rests in
    (es, (prefixed-injective w w' [] [] hw hw' padded).0)

-- Two texts that differ and have the same hash.
pub record Collision (sha256_hex : Text → String) (one other : Text) : Type 0 where
  pub differ : one ≢ other
  pub same_hash : sha256_hex one ≡ sha256_hex other

Text-discrete : Discrete Text
Text-discrete = hlevel ℕ_discrete

-- Two transactions with equal identifiers, whose encoded envelopes and write sets are each shorter
-- than 256 ^ 8 bytes, have the same encoded envelope and the same encoded write set, or the two
-- texts hashed for them, each the domain and the framed encodings, differ and have the same hash.
pub tx_id-binds :
    (sha256_hex : Text → String) (e e' w w' : Text)
    → length e < bytes_mod 8
    → length e' < bytes_mod 8
    → length w < bytes_mod 8
    → length w' < bytes_mod 8
    → tx_id sha256_hex e w ≡ tx_id sha256_hex e' w'
    → ((e ≡ e') × (w ≡ w'))
      ⊎ Collision sha256_hex (txid_domain ++ framed e w) (txid_domain ++ framed e' w')
unfolding tx_id
tx_id-binds sha256_hex e e' w w' he he' hw hw' same =
    elim (Text-discrete (txid_domain ++ framed e w) (txid_domain ++ framed e' w')) [
      | yes eq ↦ inl (
          framed-injective e e' w w' he he' hw hw'
            (append-injective txid_domain txid_domain _ _ refl eq).1)
      | no ne ↦ inr (record { differ = ne; same_hash = same })
    ]
