-- ===== src/Record.antt =====
-- The record of changes: the envelope of a transaction (internal/model/envelope.go) and the lines
-- that the core writes into it (internal/core/core.go). Messages are texts, as bytes.
pub mod Identity
pub mod Message
pub mod Refused
pub mod Rows
use container_app_service_mo.Base.{
  ℕ, suc, zero, ◌+◌, ◌/◌, ◌%◌, Bool, true, false, not, ◌&&◌, ◌||◌, List, [], ◌∷◌, ◌++◌, String,
  if◌then◌else◌, ltb, leb, ◌==◌, length,
}
use container_app_service_mo.Base.Int.{ℤ, pos, leb_ℤ}
use container_app_service_mo.Base.Words.{contains}
use container_app_service_mo.Base.Results.{Result, ok, err, ◌>>=◌, ◌>>◌, refuse_if}
use container_app_service_mo.Base.Text.{
  Text, trim_space, is_empty, ends_with, before, take, trim_right,
}
use text.Mathlib.Text.{◌==◌ as str_eq}

pub record Ref : Type 0 where
  pub ref_type : String
  pub target : String

pub record Author : Type 0 where
  pub sub : String
  pub display : String
  pub role : String

pub record Envelope : Type 0 where
  pub kind : String
  pub tenant : String
  pub service : String
  pub object_ids : List String
  pub author : Author
  pub timestamp : ℤ
  pub message : Text
  pub refs : List Ref

abbrev pub kind_runtime_event : String
kind_runtime_event = "runtime.event"

abbrev pub max_summary : ℕ
max_summary = 72

abbrev pub newline : ℕ
newline = 10

abbrev pub full_stop : ℕ
full_stop = 46

-- `Summary`: the first line of the message.
unfoldable pub summary : Envelope → Text
summary e = before newline e.message

abbrev pub ref_types : List String
ref_types = "corrects" ∷ "supersedes" ∷ "resolves" ∷ "relates" ∷ []

pub data EnvelopeError : Type 0 where
  no_kind no_tenant no_sub no_role no_timestamp no_message long_summary stopped_summary :
      EnvelopeError
  unknown_ref untargeted_ref : Ref → EnvelopeError

unfoldable pub check_refs : List Ref → Result EnvelopeError (Unit {0})
check_refs [] = ok tt
check_refs (r ∷ refs) = do
  refuse_if (not (contains r.ref_type ref_types)) (unknown_ref r)
  refuse_if (str_eq r.target "") (untargeted_ref r)
  check_refs refs

-- The checks on the first line.
unfoldable pub check_summary : Text → Result EnvelopeError (Unit {0})
check_summary line = do
  refuse_if (is_empty line) no_message
  refuse_if (ltb max_summary (length line)) long_summary
  refuse_if (ends_with full_stop line) stopped_summary

unfoldable pub validate : Envelope → Result EnvelopeError (Unit {0})
unfolding summary check_refs check_summary
validate e = do
  refuse_if (str_eq e.kind "") no_kind
  refuse_if (str_eq e.tenant "" && not (str_eq e.kind kind_runtime_event)) no_tenant
  refuse_if (str_eq e.author.sub "") no_sub
  refuse_if (str_eq e.author.role "") no_role
  refuse_if (leb_ℤ e.timestamp (pos 0)) no_timestamp
  check_summary (trim_space (summary e))
  check_refs e.refs

-- `clip` and `summarise` of the core.
unfoldable pub clip : ℕ → Text → Text
clip n s = if leb (length s) n then s else take n s

abbrev pub stop_or_space : ℕ → Bool
stop_or_space b = b == full_stop || b == 32

unfoldable pub summarise : ℕ → Text → Text
unfolding clip
summarise n s = trim_right stop_or_space (clip n (trim_space s))

-- `putUint64`: eight bytes, the highest first.
unfoldable pub low_bytes : ℕ → ℕ → Text → Text
low_bytes zero v rest = rest
low_bytes (suc n) v rest = low_bytes n (v / 256) (v % 256 ∷ rest)

unfoldable pub put_uint64 : ℕ → Text
unfolding low_bytes
put_uint64 v = low_bytes 8 v []

-- What `TxID` hashes after its domain, and the identifier, for a hash in hexadecimal.
unfoldable pub framed : Text → Text → Text
unfolding put_uint64
framed envelope write_set =
    put_uint64 (length envelope) ++ (envelope ++ (put_uint64 (length write_set) ++ write_set))

-- "privasys-monitor/txid/v1".
abbrev pub txid_domain : Text
txid_domain =
    112 ∷ 114 ∷ 105 ∷ 118 ∷ 97 ∷ 115 ∷ 121 ∷ 115 ∷ 45 ∷ 109 ∷ 111 ∷ 110 ∷ 105 ∷ 116 ∷ 111 ∷ 114 ∷ 47
    ∷ 116 ∷ 120 ∷ 105 ∷ 100 ∷ 47 ∷ 118 ∷ 49 ∷ []

unfoldable pub tx_id : (Text → String) → Text → Text → String
unfolding framed
tx_id sha256_hex envelope write_set = sha256_hex (txid_domain ++ framed envelope write_set)

-- "Record a reading of ".
abbrev pub reading_prefix : Text
reading_prefix =
    82 ∷ 101 ∷ 99 ∷ 111 ∷ 114 ∷ 100 ∷ 32 ∷ 97 ∷ 32 ∷ 114 ∷ 101 ∷ 97 ∷ 100 ∷ 105 ∷ 110 ∷ 103 ∷ 32
    ∷ 111 ∷ 102 ∷ 32 ∷ []

-- The message of `RecordSamples` for one reading of the monitor of that name.
unfoldable pub reading_message : Text → Text
unfolding summarise
reading_message name = reading_prefix ++ summarise 40 name

abbrev pub system_author : Author
system_author = record { sub = "system"; display = "Monitor"; role = "system" }

-- The envelope of `RecordSamples` for one reading.
unfoldable pub reading_envelope : String → String → List String → ℤ → Text → Envelope
unfolding reading_message
reading_envelope tenant service ids now name = record {
  kind = "samples.record";
  tenant = tenant;
  service = service;
  object_ids = ids;
  author = system_author;
  timestamp = now;
  message = reading_message name;
  refs = [];
}
