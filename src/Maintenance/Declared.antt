-- ===== src/Maintenance/Declared.antt =====
-- What a declaration of a maintenance window decides (internal/core/maintenance.go).
use mathlib.Core.Path.{subst}
use container_app_service_mo.Base.{
  ℕ, ◌+◌, ◌≤◌, ◌<◌, ◌≡◌, refl, ap, true, false, not, ◌&&◌, List, String, Option, none, some, arith,
  if◌then◌else◌, leb,
}
use container_app_service_mo.Base.Int.{
  ℤ, pos, negsuc, pos_part, ltb_ℤ, leb_ℤ, i64, ◌-ℤ◌, i64_half, i64-sub,
}
use container_app_service_mo.Base.Results.{
  ok, >>=-eq-ok, refuse_if-eq-ok, not-eq-false, refuse_if-passed,
}
use container_app_service_mo.Base.Text.{Text, trim_space, is_empty}
use container_app_service_mo.Base.Words.{contains}
use container_app_service_mo.Access.{Principal, can}
use container_app_service_mo.Access.Roles.{perm_maintenance}
use container_app_service_mo.Record.{validate}
use container_app_service_mo.Maintenance.{
  Window, Service, not_allowed, no_service, no_title, ends_first, unknown_class, service_missing,
  class_of, planned_maintenance, exclusion_classes, default_lead_time, lead_of, check_window,
  find_service, found, decide_window, declare_envelope, declare_maintenance, as_window_error,
}
use text.Mathlib.Text.{◌==◌ as str_eq}

-- A declaration that is accepted at `now`, of a window from `start`.
pub record IsDeclared (p : Principal) (services : List Service) (now start : ℕ) (w w' : Window)
    : Type 0 where
  pub allowed : can p perm_maintenance ≡ true
  pub ordered : ltb_ℤ w.starts_at w.ends_at ≡ true
  pub known_class : contains w'.class exclusion_classes ≡ true
  pub kept_times : (w'.starts_at ≡ w.starts_at) × (w'.ends_at ≡ w.ends_at)
  pub stamped : w'.declared_at ≡ pos now
  pub lead : ℕ
  pub agreed :
      (svc : Service) × (find_service w.service_id services ≡ some svc) × (lead_of svc ≡ pos lead)
  pub positive : 0 < lead
  pub excluded_if : w'.excluded ≡ (str_eq w'.class planned_maintenance && leb (now + lead) start)
  pub not_late : start ≤ now → w'.excluded ≡ false

pub found-eq-ok {ℓ κ} :
    {E : Type ℓ} {A : Type κ} (e : E) (o : Option A) {a : A} → found e o ≡ ok a → o ≡ some a
found-eq-ok e none h = cc
found-eq-ok e (some b) h = cc

ltb_ℤ-of_leb : (a b : ℤ) → leb_ℤ a b ≡ false → ltb_ℤ b a ≡ true
ltb_ℤ-of_leb a b h = ground arith

check_window-parts :
    (p : Principal) (w : Window)
    → check_window p w ≡ ok tt
    → (can p perm_maintenance ≡ true)
      × (ltb_ℤ w.starts_at w.ends_at ≡ true)
      × (contains (class_of w) exclusion_classes ≡ true)
unfolding check_window
check_window-parts p w h =
    let (allowed, h1) = refuse_if-eq-ok (not (can p perm_maintenance)) not_allowed _ h in
    let (service, h2) = refuse_if-eq-ok (str_eq w.service_id "") no_service _ h1 in
    let (title, h3) = refuse_if-eq-ok (is_empty (trim_space w.title)) no_title _ h2 in
    let (ordered, h4) = refuse_if-eq-ok (leb_ℤ w.ends_at w.starts_at) ends_first _ h3 in
    (
      not-eq-false _ allowed,
      ltb_ℤ-of_leb w.ends_at w.starts_at ordered,
      not-eq-false _
          (refuse_if-passed (not (contains (class_of w) exclusion_classes)) unknown_class h4),
    )

lead_of-pos :
    (svc : Service) → (lead_of svc ≡ pos (pos_part (lead_of svc))) × (0 < pos_part (lead_of svc))
unfolding lead_of
lead_of-pos svc = by_lead svc.maintenance_lead_time
  where
    lead : ℤ → ℤ
    lead z = if leb_ℤ z (pos 0) then default_lead_time else z

    by_lead : (z : ℤ) → (lead z ≡ pos (pos_part (lead z))) × (0 < pos_part (lead z))
    by_lead (pos n) = ground arith
    by_lead (negsuc n) = ground arith

-- The notice in int64, for two instants in range.
notice :
    (lead start now : ℕ)
    → start < i64_half
    → now < i64_half
    → leb_ℤ (pos lead) (i64 (pos start -ℤ pos now)) ≡ leb (now + lead) start
notice lead start now h k = rw (i64-sub start now h k) (ground arith)

module _ (p : Principal) (tenant : String) (services : List Service) (now start : ℕ)
    (new_id : String) (message : Text) (w : Window) (starts : w.starts_at ≡ pos start)
    (in_range : start < i64_half) (now_in_range : now < i64_half) where
  decided-IsDeclared :
      (svc : Service)
      → check_window p w ≡ ok tt
      → find_service w.service_id services ≡ some svc
      → IsDeclared p services now start w (decide_window svc (pos now) new_id w)
  unfolding decide_window
  decided-IsDeclared svc checked looked =
      let (allowed, ordered, known) = check_window-parts p w checked in
      let (whole, positive) = lead_of-pos svc in
      let lead = pos_part (lead_of svc) in
      let decision : leb_ℤ (lead_of svc) (i64 (w.starts_at -ℤ pos now)) ≡ leb (now + lead) start =
        rw (starts, whole) (notice lead start now in_range now_in_range) in
      record {
        allowed = allowed;
        ordered = ordered;
        known_class = known;
        kept_times = (refl, refl);
        stamped = refl;
        lead = lead;
        agreed = (svc, looked, whole);
        positive = positive;
        excluded_if = ap (λ b. str_eq (class_of w) planned_maintenance && b) decision;
        not_late = λ late. ground (arith, decision, positive);
      }

  -- For instants below 2 ^ 63, a declared window was allowed to the caller, ends after it starts,
  -- keeps its times and has a known class; it leaves the agreed service time exactly when it is
  -- planned maintenance and starts at least the agreed notice after the declaration, where the
  -- notice is that of its service and positive; so a window that starts before or at its
  -- declaration never does.
  pub declare_maintenance-IsDeclared :
      {w' : Window}
      → declare_maintenance p tenant services (pos now) new_id message w ≡ ok w'
      → IsDeclared p services now start w w'
  unfolding declare_maintenance
  declare_maintenance-IsDeclared {w'} h =
      let (done, checked, h1) = >>=-eq-ok (check_window p w) _ h in
      let (svc, looked, h2) =
        >>=-eq-ok (found service_missing (find_service w.service_id services)) _ h1 in
      let decided = decide_window svc (pos now) new_id w in
      let (valid, validated, h3) =
        >>=-eq-ok (as_window_error (validate (declare_envelope p tenant (pos now) message decided)))
          _ h2 in
      let same : decided ≡ w' = cc in
      subst (IsDeclared p services now start w) same (
        decided-IsDeclared svc checked
          (found-eq-ok service_missing (find_service w.service_id services) looked))
