-- ===== src/Maintenance.antt =====
-- Maintenance windows (internal/core/maintenance.go, internal/model/domain.go). Instants are int64.
pub mod Declared
use container_app_service_mo.Base.{
  ℕ, Bool, true, false, not, ◌&&◌, ◌||◌, List, [], ◌∷◌, String, Option, none, some, if◌then◌else◌,
  select,
}
use container_app_service_mo.Base.Int.{ℤ, pos, ltb_ℤ, leb_ℤ, i64, ◌-ℤ◌}
use container_app_service_mo.Base.Results.{Result, ok, err, ◌>>=◌, ◌>>◌, refuse_if}
use container_app_service_mo.Base.Text.{Text, trim_space, is_empty}
use container_app_service_mo.Base.Words.{contains}
use container_app_service_mo.Base.Sort.{sort}
use container_app_service_mo.Access.{Principal, can}
use container_app_service_mo.Access.Roles.{perm_maintenance}
use container_app_service_mo.Record.{Envelope, EnvelopeError, Author, Ref, validate, clip}
use text.Mathlib.Text.{◌==◌ as str_eq}

pub record Window : Type 0 where
  pub id : String
  pub service_id : String
  pub components : List String
  pub class : String
  pub title : Text
  pub description : Text
  pub declared_at : ℤ
  pub starts_at : ℤ
  pub ends_at : ℤ
  pub excluded : Bool
  pub lead_time : ℤ
  pub published : Bool
  pub cancelled : Bool
  pub tx_id : String

-- What a declaration reads of a service.
pub record Service : Type 0 where
  pub id : String
  pub maintenance_lead_time : ℤ

abbrev pub planned_maintenance : String
planned_maintenance = "planned_maintenance"

abbrev pub exclusion_classes : List String
exclusion_classes =
    planned_maintenance ∷ "third_party" ∷ "force_majeure" ∷ "customer_caused" ∷ "monitoring_fault"
    ∷ []

abbrev pub default_lead_time : ℤ
default_lead_time = pos 86400

pub data WindowError : Type 0 where
  not_allowed no_service no_title ends_first unknown_class service_missing window_missing :
      WindowError
  refused : EnvelopeError → WindowError

-- `Active`.
unfoldable pub is_active : ℤ → Window → Bool
is_active at w = not w.cancelled && (leb_ℤ w.starts_at at && ltb_ℤ at w.ends_at)

-- The agreed notice of a service.
unfoldable pub lead_of : Service → ℤ
lead_of s =
    if leb_ℤ s.maintenance_lead_time (pos 0) then default_lead_time else s.maintenance_lead_time

unfoldable pub find_service : String → List Service → Option Service
find_service id [] = none
find_service id (s ∷ ss) = if str_eq s.id id then some s else find_service id ss

unfoldable pub find_window : String → List Window → Option Window
find_window id [] = none
find_window id (w ∷ ws) = if str_eq w.id id then some w else find_window id ws

abbrev pub author_of : Principal → Author
author_of p = record { sub = p.sub; display = p.display; role = p.acting }

abbrev pub found {ℓ κ} : {E : Type ℓ} {A : Type κ} → E → Option A → Result E A
found e none = err e
found e (some a) = ok a

abbrev pub with_envelope {ℓ} : {A : Type ℓ} → Envelope → A → Result EnvelopeError A
with_envelope env a = validate env >> ok a

abbrev pub as_window_error {ℓ} : {A : Type ℓ} → Result EnvelopeError A → Result WindowError A
as_window_error (ok a) = ok a
as_window_error (err e) = err (refused e)

-- The class that a window without one has.
abbrev pub class_of : Window → String
class_of w = if str_eq w.class "" then planned_maintenance else w.class

-- The checks before the transaction.
unfoldable pub check_window : Principal → Window → Result WindowError (Unit {0})
check_window p w = do
  refuse_if (not (can p perm_maintenance)) not_allowed
  refuse_if (str_eq w.service_id "") no_service
  refuse_if (is_empty (trim_space w.title)) no_title
  refuse_if (leb_ℤ w.ends_at w.starts_at) ends_first
  refuse_if (not (contains (class_of w) exclusion_classes)) unknown_class

-- The decision, from the class and the notice.
unfoldable pub decide_window : Service → ℤ → String → Window → Window
unfolding lead_of
decide_window svc now new_id w =
    let class = class_of w in
    let lead_time = i64 (w.starts_at -ℤ now) in
    record w {
      id = if str_eq w.id "" then new_id else w.id;
      class = class;
      declared_at = now;
      lead_time = lead_time;
      excluded = str_eq class planned_maintenance && leb_ℤ (lead_of svc) lead_time;
      published = w.published || str_eq class planned_maintenance;
    }

unfoldable pub declare_envelope : Principal → String → ℤ → Text → Window → Envelope
declare_envelope p tenant now message w = record {
  kind = "maintenance.declare";
  tenant = tenant;
  service = w.service_id;
  object_ids = w.id ∷ [];
  author = author_of p;
  timestamp = now;
  message = message;
  refs = [];
}

-- `DeclareMaintenance`: the window returned. Its row has the texts cut to the columns, and it is not
-- cancelled.
unfoldable pub declare_maintenance :
    Principal → String → List Service → ℤ → String → Text → Window → Result WindowError Window
unfolding check_window find_service decide_window declare_envelope
declare_maintenance p tenant services now new_id message w = do
  check_window p w
  svc ← found service_missing (find_service w.service_id services)
  let decided = decide_window svc now new_id w
  as_window_error (validate (declare_envelope p tenant now message decided))
  ok decided

unfoldable pub window_row : Window → Window
window_row w = record w {
  title = clip 255 w.title;
  description = clip 4096 w.description;
  cancelled = false;
}

-- The rows with that of a window written: in its place, or at the end.
unfoldable pub put_window : Window → List Window → List Window
put_window w [] = w ∷ []
put_window w (v ∷ vs) = if str_eq v.id w.id then w ∷ vs else v ∷ put_window w vs

unfoldable pub cancel_envelope : Principal → String → ℤ → Text → Window → Envelope
cancel_envelope p tenant now message w = record {
  kind = "maintenance.cancel";
  tenant = tenant;
  service = w.service_id;
  object_ids = w.id ∷ [];
  author = author_of p;
  timestamp = now;
  message = message;
  refs = record { ref_type = "supersedes"; target = w.tx_id } ∷ [];
}

-- `CancelMaintenance`: the windows after it.
unfoldable pub cancel_maintenance :
    Principal → String → ℤ → String → Text → List Window → Result WindowError (List Window)
unfolding find_window cancel_envelope put_window
cancel_maintenance p tenant now id message windows = do
  refuse_if (not (can p perm_maintenance)) not_allowed
  w ← found window_missing (find_window id windows)
  as_window_error (validate (cancel_envelope p tenant now message w))
  ok (put_window (record w { cancelled = true }) windows)

-- `ActiveMaintenance` and `MaintenanceBetween`.
unfoldable pub active_maintenance : ℤ → List Window → List Window
unfolding is_active
active_maintenance at windows = select (is_active at) windows

abbrev pub window_before : Window → Window → Bool
window_before a b = ltb_ℤ a.starts_at b.starts_at

unfoldable pub maintenance_between : String → ℤ → ℤ → List Window → List Window
maintenance_between service from to windows = sort window_before (
    select
      (λ w.
        str_eq w.service_id service
        && (not w.cancelled && (ltb_ℤ w.starts_at to && ltb_ℤ from w.ends_at)))
      windows)
