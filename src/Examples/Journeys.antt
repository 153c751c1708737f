-- ===== src/Examples/Journeys.antt =====
-- A journey with a request, and the theorems on definitions at it (internal/model/domain.go).
use container_app_service_mo.Base.{◌≡◌, refl, [], ◌∷◌, String, Option, none, some}
use container_app_service_mo.Base.Int.{pos}
use container_app_service_mo.Base.Results.{ok}
use container_app_service_mo.Base.Text.{Text, trim_space}
use container_app_service_mo.Definition.{
  JourneyStep, Definition, validate_definition, check_steps, accepts_step, accepts_kind,
  blank_templates, blank_loop, split_pair, same_name,
}
use container_app_service_mo.Definition.Runnable.{
  IsRunnable, validate_definition-IsRunnable, blank_templates-ends,
}

-- "https" for every URL.
abbrev scheme_of : Text → Option String
scheme_of url = some "https"

-- "{{a}}b".
abbrev url : Text
url = 123 ∷ 123 ∷ 97 ∷ 125 ∷ 125 ∷ 98 ∷ []

blanked : blank_templates url ≡ some (120 ∷ 98 ∷ [])
unfolding blank_templates blank_loop split_pair
blanked = refl

abbrev request : JourneyStep
request = record {
  name = 71 ∷ [];
  kind = "http";
  method = "GET";
  url = url;
  assertions = [];
  extractions = [];
  sleep_ms = pos 0;
  selector = "";
  value = "";
  key = "";
  expression = "";
  screenshot = none;
}

abbrev front_page : Definition
front_page = record {
  name = 70 ∷ [];
  component_id = "web";
  interval_seconds = pos 60;
  timeout_seconds = pos 30;
  failure_threshold = pos 2;
  recovery_threshold = pos 2;
  engine = "";
  steps = request ∷ [];
}

front_page_accepted : validate_definition scheme_of front_page ≡ ok tt
unfolding validate_definition check_steps accepts_step accepts_kind blank_templates blank_loop
    split_pair same_name trim_space
front_page_accepted = refl

validate_definition-IsRunnable_example : IsRunnable front_page
validate_definition-IsRunnable_example =
    validate_definition-IsRunnable scheme_of front_page front_page_accepted

blank_templates-ends_example : (r : Text) × (blank_templates url ≡ some r)
blank_templates-ends_example = blank_templates-ends url
