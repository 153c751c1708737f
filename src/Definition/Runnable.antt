-- ===== src/Definition/Runnable.antt =====
-- What an accepted definition has (internal/model/domain.go), and that the loop over the placeholders
-- of a URL ends.
use container_app_service_mo.Base.{
  ℕ, zero, suc, ◌≤◌, ◌<◌, ◌≡◌, refl, sym, ap, ◌∙◌, Bool, true, false, not, ◌&&◌, ◌||◌, List, [],
  ◌∷◌, ◌++◌, String, Option, none, some, arith, if◌then◌else◌, any, length, ltb, ◌==◌, Bool-cases,
  inl, inr,
}
use container_app_service_mo.Base.Int.{ℤ, pos, negsuc, ltb_ℤ, leb_ℤ}
use container_app_service_mo.Base.Results.{ok, refuse_if-eq-ok, refuse_if-passed, not-eq-false}
use container_app_service_mo.Base.Text.{Text, trim_space, is_empty}
use container_app_service_mo.Definition.{
  JourneyStep, Definition, no_name, no_component, short_interval, bad_timeout, bad_threshold,
  no_steps, too_many_steps, unnamed_step, no_request, no_navigation, same_step, bad_step,
  floor_interval, max_steps, none_of, keep_first, split_pair, put_before, blank_closed,
  blank_opened, blank_loop, blank_templates, http, accepts_step, same_name, check_steps, goto,
  accepts_browser_step, check_browser, browser, validate_definition,
}
use text.Mathlib.Text.{◌==◌ as str_eq}

-- The rest after the pair that was found.
abbrev after_of : Option (Text × Text) → Text
after_of none = []
after_of (some (before, after)) = after

keep_first-rest : (c : ℕ) (o : Option (Text × Text)) → after_of (keep_first c o) ≡ after_of o
keep_first-rest c none = refl
keep_first-rest c (some (before, after)) = refl

abbrev is_found : Option (Text × Text) → Bool
is_found none = false
is_found (some r) = true

keep_first-found : (c : ℕ) (o : Option (Text × Text)) → is_found (keep_first c o) ≡ is_found o
keep_first-found c none = refl
keep_first-found c (some (before, after)) = refl

-- A pair that is found takes two bytes.
split_pair-shorter :
    (b : ℕ) (s : Text)
    → is_found (split_pair b s) ≡ true
    → suc (suc (length (after_of (split_pair b s)))) ≤ length s
unfolding split_pair
split_pair-shorter b [] h = absurd (ground arith)
split_pair-shorter b (c ∷ []) h = absurd (ground arith)
split_pair-shorter b (c ∷ d ∷ cs) h = elim (Bool-cases (c == b && d == b)) [
  | inl here ↦ rw here (omega arith)
  | inr further ↦
      let found : is_found (keep_first c (split_pair b (d ∷ cs))) ≡ true = rw further at h in
      let ih =
        split_pair-shorter b (d ∷ cs) (sym (keep_first-found c (split_pair b (d ∷ cs))) ∙ found) in
      rw further (omega (arith, ih, ap length (keep_first-rest c (split_pair b (d ∷ cs)))))
]

put_before-some :
    (before : Text) (o : Option Text) {r : Text}
    → o ≡ some r
    → (s : Text) × (put_before before o ≡ some s)
put_before-some before none h = absurd (ground arith)
put_before-some before (some r) h = (before ++ 120 ∷ r, refl)

-- With more fuel than bytes the loop ends.
blank_loop-ends :
    (fuel : ℕ) (s : Text) → length s < fuel → (r : Text) × (blank_loop fuel s ≡ some r)
unfolding blank_loop
blank_loop-ends zero s h = absurd (omega arith)
blank_loop-ends (suc fuel) s h =
    opened (split_pair 123 s) (split_pair-shorter 123 s) (λ rest. blank_loop fuel rest)
      (λ rest shorter. blank_loop-ends fuel rest (omega (arith, shorter)))
  where
    closed :
        (before after : Text) (again : Text → Option Text) (o : Option (Text × Text))
        → (is_found o ≡ true → suc (suc (length (after_of o))) ≤ length after)
        → length after < length s
        → ((rest : Text) → length rest < length s → (r : Text) × (again rest ≡ some r))
        → (r : Text) × (blank_closed s before again o ≡ some r)
    closed before after again none shorter le ends = (s, refl)
    closed before after again (some (inner, rest)) shorter le ends =
        let (r, e) = ends rest (omega (arith, shorter refl, le)) in
        put_before-some before (again rest) e

    opened :
        (o : Option (Text × Text))
        → (is_found o ≡ true → suc (suc (length (after_of o))) ≤ length s)
        → (again : Text → Option Text)
        → ((rest : Text) → length rest < length s → (r : Text) × (again rest ≡ some r))
        → (r : Text) × (blank_opened s again o ≡ some r)
    opened none shorter again ends = (s, refl)
    opened (some (before, after)) shorter again ends =
        closed before after again (split_pair 125 after) (split_pair-shorter 125 after)
          (omega (arith, shorter refl)) ends

-- Blanking the placeholders of a text ends, for every text.
pub blank_templates-ends : (s : Text) → (r : Text) × (blank_templates s ≡ some r)
unfolding blank_templates
blank_templates-ends s = blank_loop-ends (suc (length s)) s (omega arith)

-- A name that was not seen before, at each step.
abbrev pub AllNew : List Text → List JourneyStep → Type 0
AllNew seen [] = Unit
AllNew seen (s ∷ steps) =
    (is_empty (trim_space s.name) ≡ false)
    × (any (same_name s.name) seen ≡ false)
    × AllNew (s.name ∷ seen) steps

-- An accepted definition. `start` is the kind of step that a journey of its engine needs.
pub record IsRunnable (m : Definition) : Type 0 where
  pub named : is_empty (trim_space m.name) ≡ false
  pub interval : (n : ℕ) × (m.interval_seconds ≡ pos n) × (10 ≤ n)
  pub in_time :
      (leb_ℤ m.timeout_seconds (pos 0) || ltb_ℤ m.interval_seconds m.timeout_seconds) ≡ false
  pub failure : (n : ℕ) × (m.failure_threshold ≡ pos n) × (1 ≤ n)
  pub recovery : (n : ℕ) × (m.recovery_threshold ≡ pos n) × (1 ≤ n)
  pub few_steps : length m.steps ≤ 40
  pub starts :
      any (λ s. str_eq s.kind (if str_eq m.engine browser then goto else http)) m.steps ≡ true
  pub own_names : str_eq m.engine browser ≡ false → AllNew [] m.steps

at_least : (k : ℕ) (z : ℤ) → ltb_ℤ z (pos k) ≡ false → (n : ℕ) × (z ≡ pos n) × (k ≤ n)
at_least k (pos n) h = (n, refl, ground (arith, h))
at_least k (negsuc n) h = absurd (ground (arith, h))

module _ (scheme_of : Text → Option String) where
  check_steps-parts :
      (seen : List Text) (requested : Bool) (steps : List JourneyStep)
      → check_steps scheme_of seen requested steps ≡ ok tt
      → ((requested || any (λ s. str_eq s.kind http) steps) ≡ true) × AllNew seen steps
  unfolding check_steps
  check_steps-parts seen requested [] h =
      (ground (arith, not-eq-false requested (refuse_if-passed (not requested) no_request h)), tt)
  check_steps-parts seen requested (s ∷ steps) h =
      let (named, h1) = refuse_if-eq-ok (is_empty (trim_space s.name)) unnamed_step _ h in
      let (fresh, h2) = refuse_if-eq-ok (any (same_name s.name) seen) (same_step s.name) _ h1 in
      let (good, h3) = refuse_if-eq-ok (not (accepts_step scheme_of s)) (bad_step s.name) _ h2 in
      let (starts, new) =
        check_steps-parts (s.name ∷ seen) (requested || str_eq s.kind http) steps h3 in
      (ground (arith, starts), (named, fresh, new))

check_browser-parts :
    (navigated : Bool) (steps : List JourneyStep)
    → check_browser navigated steps ≡ ok tt
    → (navigated || any (λ s. str_eq s.kind goto) steps) ≡ true
unfolding check_browser
check_browser-parts navigated [] h =
    ground (arith, not-eq-false navigated (refuse_if-passed (not navigated) no_navigation h))
check_browser-parts navigated (s ∷ steps) h =
    let (good, h1) = refuse_if-eq-ok (not (accepts_browser_step s)) (bad_step s.name) _ h in
    ground (arith, check_browser-parts (navigated || str_eq s.kind goto) steps h1)

neither : (a b : Bool) → (a || b) ≡ false → (a ≡ false) × (b ≡ false)
neither a b h = ground arith

module _ (scheme_of : Text → Option String) (m : Definition) where
  journey_parts :
      (if str_eq m.engine browser
          then check_browser false m.steps
          else check_steps scheme_of [] false m.steps)
        ≡ ok tt
      → (any (λ s. str_eq s.kind (if str_eq m.engine browser then goto else http)) m.steps ≡ true)
        × (str_eq m.engine browser ≡ false → AllNew [] m.steps)
  journey_parts h = elim (Bool-cases (str_eq m.engine browser)) [
    | inl page ↦ (
      rw page (check_browser-parts false m.steps (rw page at h)),
      λ other. absurd (ground (arith, page, other)),
    )
    | inr plain ↦
        let (starts, new) = check_steps-parts scheme_of [] false m.steps (rw plain at h) in
        (rw plain starts, λ other. new)
  ]

  -- An accepted definition has a name that is not blank, an interval of at least 10 seconds, a
  -- positive timeout that is no longer than the interval, thresholds of at least 1, at most 40
  -- steps, of which one is a request or, in a browser journey, a navigation; the steps of a
  -- journey that is not a browser's have names that are not blank and differ from those before
  -- them.
  pub validate_definition-IsRunnable : validate_definition scheme_of m ≡ ok tt → IsRunnable m
  unfolding validate_definition
  validate_definition-IsRunnable h =
      let (named, h1) = refuse_if-eq-ok (is_empty (trim_space m.name)) no_name _ h in
      let (component, h2) = refuse_if-eq-ok (str_eq m.component_id "") no_component _ h1 in
      let (interval, h3) =
        refuse_if-eq-ok (ltb_ℤ m.interval_seconds floor_interval) short_interval _ h2 in
      let (timed, h4) =
        refuse_if-eq-ok
          (leb_ℤ m.timeout_seconds (pos 0) || ltb_ℤ m.interval_seconds m.timeout_seconds)
          bad_timeout _ h3 in
      let (thresholds, h5) =
        refuse_if-eq-ok (ltb_ℤ m.failure_threshold (pos 1) || ltb_ℤ m.recovery_threshold (pos 1))
          bad_threshold _ h4 in
      let (some_steps, h6) = refuse_if-eq-ok (none_of m.steps) no_steps _ h5 in
      let (few, h7) = refuse_if-eq-ok (ltb max_steps (length m.steps)) too_many_steps _ h6 in
      let (fails, recovers) =
        neither (ltb_ℤ m.failure_threshold (pos 1)) (ltb_ℤ m.recovery_threshold (pos 1))
          thresholds in
      let (starts, own) = journey_parts h7 in
      record {
        named = named;
        interval = at_least 10 m.interval_seconds interval;
        in_time = timed;
        failure = at_least 1 m.failure_threshold fails;
        recovery = at_least 1 m.recovery_threshold recovers;
        few_steps = ground (arith, few);
        starts = starts;
        own_names = own;
      }
