-- ===== src/Desk/Dated.antt =====
-- When an incident has an instant of resolution (internal/core/incidents.go).
use mathlib.Core.Path.{subst}
use container_app_service_mo.Base.{
  ℕ, ◌<◌, ◌≡◌, refl, sym, ap, ◌∙◌, false, not, ◌||◌, List, [], ◌∷◌, String, some, arith, ◌==◌, All,
  Bool-cases, inl, inr, if_both,
}
use container_app_service_mo.Base.Results.{ok, >>=-eq-ok, refuse_if-eq-ok}
use container_app_service_mo.Base.Text.{Text, trim_space, is_empty}
use container_app_service_mo.Access.{Principal, can}
use container_app_service_mo.Access.Roles.{perm_respond}
use container_app_service_mo.Record.{validate}
use container_app_service_mo.Maintenance.{found}
use container_app_service_mo.Maintenance.Declared.{found-eq-ok}
use container_app_service_mo.Desk.{
  Incident, IncidentUpdate, Desk, resolved, not_allowed, no_title, no_body, unknown_status,
  no_incident, as_desk_error, valid_status, word_or, opened, opened_row, put_incident,
  find_incident, open_envelope, open_incident, moved, update_envelope, update_incident,
}
use text.Mathlib.Text.{◌==◌ as str_eq}
use text.Mathlib.TextPositions.{eq_refl}

-- An incident has an instant of resolution exactly while it is resolved.
abbrev pub IsDated : Incident → Type 0
IsDated inc = (inc.resolved_at == 0) ≡ not (str_eq inc.status resolved)

abbrev pub AllDated : Desk → Type 0
AllDated desk = All IsDated desk.incidents

put_incident-AllDated :
    (inc : Incident) (incs : List Incident)
    → IsDated inc
    → All IsDated incs
    → All IsDated (put_incident inc incs)
unfolding put_incident
put_incident-AllDated inc [] h hs = (h, tt)
put_incident-AllDated inc (other ∷ incs) h hs =
    if_both (All IsDated) (str_eq other.id inc.id) (inc ∷ incs) _ (h, hs.1)
      (hs.0, put_incident-AllDated inc incs h hs.1)

find_incident-IsDated :
    (id : String) (incs : List Incident) {inc : Incident}
    → All IsDated incs
    → find_incident id incs ≡ some inc
    → IsDated inc
unfolding find_incident
find_incident-IsDated id [] hs e = absurd (ground arith)
find_incident-IsDated id (other ∷ incs) {inc} hs e = elim (Bool-cases (str_eq other.id id)) [
  | inl here ↦ let same : other ≡ inc = ground (arith, here) in subst IsDated same hs.0
  | inr there ↦ find_incident-IsDated id incs hs.1 (rw there at e)
]

find-put :
    (row : Incident) (incs : List Incident)
    → find_incident row.id (put_incident row incs) ≡ some row
unfolding find_incident put_incident
find-put row [] = rw (eq_refl row.id)
find-put row (other ∷ incs) = elim (Bool-cases (str_eq other.id row.id)) [
  | inl here ↦ rw (here, eq_refl row.id)
  | inr there ↦ rw (there, there) (find-put row incs)
]

moved-IsDated :
    (status : String) (now : ℕ) (inc : Incident)
    → 0 < now
    → IsDated inc
    → IsDated (moved status now inc)
unfolding moved
moved-IsDated status now inc h dated = ground (arith, dated)

module _ (p : Principal) (tenant : String) (now : ℕ) (later : 0 < now) where
  update_incident-AllDated :
      (update_id incident_id status : String) (body message : Text) (desk : Desk)
      {r : Desk × IncidentUpdate}
      → AllDated desk
      → update_incident p tenant now update_id incident_id status body message desk ≡ ok r
      → AllDated r.0
  unfolding update_incident
  update_incident-AllDated update_id incident_id status body message desk {r} dated h =
      let (allowed, h1) = refuse_if-eq-ok (not (can p perm_respond)) not_allowed _ h in
      let (told, h2) = refuse_if-eq-ok (is_empty (trim_space body)) no_body _ h1 in
      let (known, h3) = refuse_if-eq-ok (not (valid_status status)) unknown_status _ h2 in
      let (inc, looked, h4) =
        >>=-eq-ok (found no_incident (find_incident incident_id desk.incidents)) _ h3 in
      let (valid, validated, h5) =
        >>=-eq-ok (as_desk_error (validate (update_envelope p tenant now message inc incident_id)))
          _ h4 in
      let rows : put_incident (moved status now inc) desk.incidents ≡ r.0.incidents = cc in
      subst (All IsDated) rows (
        put_incident-AllDated (moved status now inc) desk.incidents
          (moved-IsDated status now inc later (
            find_incident-IsDated incident_id desk.incidents dated
              (found-eq-ok no_incident (find_incident incident_id desk.incidents) looked)))
          dated)

  -- What an incident that was opened has written.
  opened_desk :
      (new_id update_id : String) (inc : Incident) (body message : Text) (desk : Desk)
      {r : Desk × Incident}
      → open_incident p tenant now new_id update_id inc body message desk ≡ ok r
      → (r.0.incidents ≡ put_incident (opened_row (opened now new_id inc)) desk.incidents)
        × (r.1 ≡ opened now new_id inc)
  unfolding open_incident
  opened_desk new_id update_id inc body message desk {r} h =
      let (allowed, h1) = refuse_if-eq-ok (not (can p perm_respond)) not_allowed _ h in
      let (titled, h2) =
        refuse_if-eq-ok (str_eq inc.service_id "" || is_empty (trim_space inc.title)) no_title _
          h1 in
      let (told, h3) = refuse_if-eq-ok (is_empty (trim_space body)) no_body _ h2 in
      let (valid, validated, h4) =
        >>=-eq-ok
          (as_desk_error (validate (open_envelope p tenant now message (opened now new_id inc)))) _
          h3 in
      (cc, cc)

  opened-IsDated :
      (new_id : String) (inc : Incident)
      → str_eq inc.status resolved ≡ false
      → IsDated (opened_row (opened now new_id inc))
  unfolding opened opened_row
  opened-IsDated new_id inc h = elim (Bool-cases (str_eq inc.status "")) [
    | inl blank ↦ rw blank
    | inr told ↦ rw (told, h)
  ]

  open_incident-AllDated :
      (new_id update_id : String) (inc : Incident) (body message : Text) (desk : Desk)
      {r : Desk × Incident}
      → str_eq inc.status resolved ≡ false
      → AllDated desk
      → open_incident p tenant now new_id update_id inc body message desk ≡ ok r
      → AllDated r.0
  open_incident-AllDated new_id update_id inc body message desk {r} unresolved dated h =
      subst (All IsDated) (sym (opened_desk new_id update_id inc body message desk h).0) (
        put_incident-AllDated (opened_row (opened now new_id inc)) desk.incidents
          (opened-IsDated new_id inc unresolved) dated)

  -- An incident that is opened with the status resolved is written with that status and with no
  -- instant of resolution.
  pub open_incident-undated :
      (new_id update_id : String) (inc : Incident) (body message : Text) (desk : Desk)
      {r : Desk × Incident}
      → inc.status ≡ resolved
      → open_incident p tenant now new_id update_id inc body message desk ≡ ok r
      → (row : Incident) × (find_incident r.1.id r.0.incidents ≡ some row)
        × (row.status ≡ resolved)
        × (row.resolved_at ≡ 0)
  unfolding opened_row opened
  open_incident-undated new_id update_id inc body message desk {r} done h =
      let (rows, made) = opened_desk new_id update_id inc body message desk h in
      let row = opened_row (opened now new_id inc) in
      (
        row,
        ap (λ (x : Incident). find_incident x.id r.0.incidents) made
            ∙ ap (find_incident (opened now new_id inc).id) rows
            ∙ find-put row desk.incidents,
        ap (word_or "investigating") done,
        refl,
      )

-- What people do to the incidents, each at an instant after 0: an incident is opened with a status
-- other than resolved, or updated.
pub data Step (tenant : String) : Desk → Desk → Type 0 where
  opens :
      (p : Principal) (now : ℕ) (new_id update_id : String) (inc : Incident) (body message : Text)
      (desk : Desk) (r : Desk × Incident)
      → 0 < now
      → str_eq inc.status resolved ≡ false
      → open_incident p tenant now new_id update_id inc body message desk ≡ ok r
      → Step tenant desk r.0
  updates :
      (p : Principal) (now : ℕ) (update_id incident_id status : String) (body message : Text)
      (desk : Desk) (r : Desk × IncidentUpdate)
      → 0 < now
      → update_incident p tenant now update_id incident_id status body message desk ≡ ok r
      → Step tenant desk r.0

-- Any number of them, the last one named last.
pub data History (tenant : String) (start : Desk) : Desk → Type 0 where
  then_done :
      {before after : Desk}
      → History tenant start before
      → Step tenant before after
      → History tenant start after
  nothing_done : History tenant start start

Step-AllDated : {tenant : String} {s t : Desk} → Step tenant s t → AllDated s → AllDated t
Step-AllDated {tenant} (opens p now new_id update_id inc body message desk r later unresolved h)
      dated =
    open_incident-AllDated p tenant now later new_id update_id inc body message desk unresolved
      dated h
Step-AllDated {tenant} (updates p now update_id incident_id status body message desk r later h)
      dated =
    update_incident-AllDated p tenant now later update_id incident_id status body message desk dated
      h

-- Whatever incidents people open with a status other than resolved and update, at instants after
-- 0, an incident has an instant of resolution exactly while its status is resolved, where that
-- held at the start.
pub History-AllDated :
    {tenant : String} {start desk : Desk}
    → AllDated start
    → History tenant start desk
    → AllDated desk
History-AllDated dated (then_done earlier step) =
    Step-AllDated step (History-AllDated dated earlier)
History-AllDated dated nothing_done = dated
