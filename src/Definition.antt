-- ===== src/Definition.antt =====
-- The check of a monitor's definition before it is accepted (internal/model/domain.go,
-- internal/model/browser.go). Numbers are int64; what net/url says of a URL is a parameter.
pub mod Runnable
use container_app_service_mo.Base.{
  ℕ, zero, suc, ◌+◌, Bool, true, false, not, ◌&&◌, ◌||◌, List, [], ◌∷◌, ◌++◌, String, Option, none,
  some, if◌then◌else◌, any, length, ltb, ◌==◌,
}
use container_app_service_mo.Base.Int.{ℤ, pos, ltb_ℤ, leb_ℤ}
use container_app_service_mo.Base.Results.{Result, ok, err, ◌>>=◌, ◌>>◌, refuse_if}
use container_app_service_mo.Base.Text.{Text, trim_space, is_empty}
use container_app_service_mo.Base.Words.{contains}
use text.Mathlib.Text.{◌==◌ as str_eq}

pub record Assertion : Type 0 where
  pub source : String
  pub target : String
  pub op : String
  pub value : String

pub record Extraction : Type 0 where
  pub variable : String
  pub source : String
  pub target : String

pub record ScreenshotCheck : Type 0 where
  pub baseline : Text
  pub max_distance : ℤ
  pub min_ink_ppm : ℤ
  pub store : String

pub record JourneyStep : Type 0 where
  pub name : Text
  pub kind : String
  pub method : String
  pub url : Text
  pub assertions : List Assertion
  pub extractions : List Extraction
  pub sleep_ms : ℤ
  pub selector : String
  pub value : String
  pub key : String
  pub expression : String
  pub screenshot : Option ScreenshotCheck

pub record Definition : Type 0 where
  pub name : Text
  pub component_id : String
  pub interval_seconds : ℤ
  pub timeout_seconds : ℤ
  pub failure_threshold : ℤ
  pub recovery_threshold : ℤ
  pub engine : String
  pub steps : List JourneyStep

pub data DefinitionError : Type 0 where
  no_name no_component short_interval bad_timeout bad_threshold no_steps too_many_steps unnamed_step
        no_request no_navigation :
      DefinitionError
  same_step : Text → DefinitionError
  bad_step : Text → DefinitionError

abbrev pub floor_interval : ℤ
floor_interval = pos 10

abbrev pub max_steps : ℕ
max_steps = 40

abbrev pub assertion_sources : List String
assertion_sources =
    "status" ∷ "latency_ms" ∷ "header" ∷ "body" ∷ "json" ∷ "var" ∷ "ocr" ∷ "console" ∷ []

abbrev pub assertion_ops : List String
assertion_ops =
    "eq" ∷ "ne" ∷ "lt" ∷ "lte" ∷ "gt" ∷ "gte" ∷ "contains" ∷ "matches" ∷ "exists" ∷ "absent" ∷ []

abbrev pub targeted_sources : List String
targeted_sources = "header" ∷ "json" ∷ "var" ∷ []

abbrev pub extraction_sources : List String
extraction_sources = "json" ∷ "header" ∷ "body" ∷ "status" ∷ []

-- `validate` of an assertion, as whether it returns no error.
unfoldable pub accepts_assertion : Assertion → Bool
accepts_assertion a =
    contains a.source assertion_sources
    && (contains a.op assertion_ops
        && not (contains a.source targeted_sources && str_eq a.target ""))

unfoldable pub accepts_extraction : Extraction → Bool
accepts_extraction e = not (str_eq e.variable "") && contains e.source extraction_sources

abbrev pub all_of {ℓ} : {A : Type ℓ} → (A → Bool) → List A → Bool
all_of p [] = true
all_of p (x ∷ xs) = p x && all_of p xs

abbrev pub none_of {ℓ} : {A : Type ℓ} → List A → Bool
none_of [] = true
none_of (x ∷ xs) = false

-- `ScreenshotCheck.validate`.
unfoldable pub accepts_screenshot : ScreenshotCheck → Bool
accepts_screenshot c =
    (is_empty c.baseline || length c.baseline == 16)
    && ((leb_ℤ (pos 0) c.max_distance && leb_ℤ c.max_distance (pos 64))
        && ((leb_ℤ (pos 0) c.min_ink_ppm && leb_ℤ c.min_ink_ppm (pos 1000000))
            && contains c.store ("" ∷ "always" ∷ "on_fault" ∷ "never" ∷ [])))

abbrev pub accepts_capture : Option ScreenshotCheck → Bool
accepts_capture none = true
accepts_capture (some c) = accepts_screenshot c

-- A wait of 1 ms up to a limit.
abbrev pub in_wait : ℕ → ℤ → Bool
in_wait limit ms = ltb_ℤ (pos 0) ms && leb_ℤ ms (pos limit)

abbrev pub keep_first : ℕ → Option (Text × Text) → Option (Text × Text)
keep_first c none = none
keep_first c (some (before, after)) = some (c ∷ before, after)

-- What stands before and after the first pair of a byte.
unfoldable pub split_pair : ℕ → Text → Option (Text × Text)
split_pair b [] = none
split_pair b (c ∷ []) = none
split_pair b (c ∷ d ∷ cs) =
    let rest = keep_first c (split_pair b (d ∷ cs)) in
    if c == b && d == b then some ([], cs) else rest

-- "{{", the placeholder and "}}" give way to "x".
abbrev pub put_before : Text → Option Text → Option Text
put_before before none = none
put_before before (some s) = some (before ++ 120 ∷ s)

abbrev pub blank_closed : Text → Text → (Text → Option Text) → Option (Text × Text) → Option Text
blank_closed s before again none = some s
blank_closed s before again (some (inner, rest)) = put_before before (again rest)

abbrev pub blank_opened : Text → (Text → Option Text) → Option (Text × Text) → Option Text
blank_opened s again none = some s
blank_opened s again (some (before, after)) = blank_closed s before again (split_pair 125 after)

-- The loop of `blankTemplates`, on fuel: `none` where it runs out.
unfoldable pub blank_loop : ℕ → Text → Option Text
blank_loop zero s = none
blank_loop (suc fuel) s = blank_opened s (λ rest. blank_loop fuel rest) (split_pair 123 s)

unfoldable pub blank_templates : Text → Option Text
blank_templates s = blank_loop (suc (length s)) s

abbrev pub is_web : Option String → Bool
is_web none = false
is_web (some scheme) = str_eq scheme "https" || str_eq scheme "http"

abbrev pub accepts_blanked : (Text → Option String) → Option Text → Bool
accepts_blanked scheme_of none = false
accepts_blanked scheme_of (some url) = is_web (scheme_of url)

abbrev pub http : String
http = "http"

-- The switch on the kind of a step of an HTTP journey.
unfoldable pub accepts_kind : (Text → Option String) → JourneyStep → Bool
accepts_kind scheme_of s =
    if str_eq s.kind http
    then not (is_empty s.url)
      && (accepts_blanked scheme_of (blank_templates s.url) && not (str_eq s.method ""))
    else if str_eq s.kind "assert"
    then not (none_of s.assertions)
    else if str_eq s.kind "extract"
    then not (none_of s.extractions)
    else str_eq s.kind "sleep" && in_wait 60000 s.sleep_ms

-- `validate` of a step.
unfoldable pub accepts_step : (Text → Option String) → JourneyStep → Bool
accepts_step scheme_of s =
    accepts_kind scheme_of s
    && (all_of accepts_assertion s.assertions && all_of accepts_extraction s.extractions)

unfoldable pub same_name : Text → Text → Bool
same_name [] [] = true
same_name [] (d ∷ ds) = false
same_name (c ∷ cs) [] = false
same_name (c ∷ cs) (d ∷ ds) = c == d && same_name cs ds

-- The loop over the steps of an HTTP journey: the names seen, and whether a request was.
unfoldable pub check_steps :
    (Text → Option String) → List Text → Bool → List JourneyStep → Result DefinitionError (Unit {0})
check_steps scheme_of seen requested [] = refuse_if (not requested) no_request
check_steps scheme_of seen requested (s ∷ steps) = do
  refuse_if (is_empty (trim_space s.name)) unnamed_step
  refuse_if (any (same_name s.name) seen) (same_step s.name)
  refuse_if (not (accepts_step scheme_of s)) (bad_step s.name)
  check_steps scheme_of (s.name ∷ seen) (requested || str_eq s.kind http) steps

abbrev pub goto : String
goto = "goto"

-- The switch on the kind of a step of a browser journey.
unfoldable pub accepts_action : JourneyStep → Bool
accepts_action s =
    if str_eq s.kind goto
    then not (is_empty s.url)
    else if str_eq s.kind "click" || str_eq s.kind "wait"
    then not (str_eq s.selector "")
    else if str_eq s.kind "fill"
    then not (str_eq s.selector "") && not (str_eq s.value "")
    else if str_eq s.kind "press"
    then not (str_eq s.key "")
    else if str_eq s.kind "eval"
    then not (str_eq s.expression "")
    else if str_eq s.kind "sleep"
    then in_wait 30000 s.sleep_ms
    else contains s.kind ("screenshot" ∷ "read" ∷ "assert" ∷ [])

-- "{{ secrets.".
abbrev pub secret_reference : Text
secret_reference = 123 ∷ 123 ∷ 32 ∷ 115 ∷ 101 ∷ 99 ∷ 114 ∷ 101 ∷ 116 ∷ 115 ∷ 46 ∷ []

abbrev pub starts_with : Text → Text → Bool
starts_with [] s = true
starts_with (c ∷ cs) [] = false
starts_with (c ∷ cs) (d ∷ ds) = c == d && starts_with cs ds

-- `strings.Contains`.
unfoldable pub holds_text : Text → Text → Bool
holds_text part [] = is_empty part
holds_text part (c ∷ cs) = starts_with part (c ∷ cs) || holds_text part cs

unfoldable pub accepts_browser_step : JourneyStep → Bool
accepts_browser_step s =
    accepts_action s
    && (not (str_eq s.kind goto && holds_text secret_reference s.url)
        && (accepts_capture s.screenshot && all_of accepts_assertion s.assertions))

-- `validateBrowser`.
unfoldable pub check_browser : Bool → List JourneyStep → Result DefinitionError (Unit {0})
check_browser navigated [] = refuse_if (not navigated) no_navigation
check_browser navigated (s ∷ steps) = do
  refuse_if (not (accepts_browser_step s)) (bad_step s.name)
  check_browser (navigated || str_eq s.kind goto) steps

abbrev pub browser : String
browser = "browser"

-- `Validate`.
unfoldable pub validate_definition :
    (Text → Option String) → Definition → Result DefinitionError (Unit {0})
validate_definition scheme_of m = do
  refuse_if (is_empty (trim_space m.name)) no_name
  refuse_if (str_eq m.component_id "") no_component
  refuse_if (ltb_ℤ m.interval_seconds floor_interval) short_interval
  refuse_if (leb_ℤ m.timeout_seconds (pos 0) || ltb_ℤ m.interval_seconds m.timeout_seconds)
      bad_timeout
  refuse_if (ltb_ℤ m.failure_threshold (pos 1) || ltb_ℤ m.recovery_threshold (pos 1)) bad_threshold
  refuse_if (none_of m.steps) no_steps
  refuse_if (ltb max_steps (length m.steps)) too_many_steps
  if str_eq m.engine browser
      then check_browser false m.steps
      else check_steps scheme_of [] false m.steps
