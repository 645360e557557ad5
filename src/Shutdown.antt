-- ===== src/Shutdown.antt =====
-- safety_shutdown/handler.py: the Lambda function that closes a test window.
pub mod Closed
use aws_remote_mcp.Prelude.{
  ℕ, String, Bool, true, not, Option, none, some, List, [], ◌∷◌, map, if◌then◌else◌, contains,
}
use aws_remote_mcp.Prelude.Result.{⊤, Result, ok, err, runtime_error}
use aws_remote_mcp.Prelude.Effect.{Action, pure, raise, ◌>>=◌, ◌>>◌}
use aws_remote_mcp.Prelude.Text
use aws_remote_mcp.Prelude.Split.{strip}
use aws_remote_mcp.Json
use aws_remote_mcp.Json.{text, arr, Fields, end, field}
use aws_remote_mcp.Core.Models.{Stdlib, is_whitespace}
use aws_remote_mcp.Adapters.Values.{array}

-- The three AWS clients, how they are made, the environment, and the printing of a record as JSON.
pub record Surroundings (W : Type 0) : Type 0 where
  pub client : String → Action W ⊤
  pub environ : String → W → Option String
  pub update_api : String → Bool → Action W ⊤
  pub put_function_concurrency : String → ℕ → Action W ⊤
  pub delete_alarms : List String → Action W ⊤
  pub print : Fields → Action W ⊤

abbrev pub cons_failure : String → Result ⊤ → List String → List String
cons_failure action (ok _) failures = failures
cons_failure action (err e) failures = action ∷ failures

-- The loop over the actions, with the names of those that failed.
unfoldable pub attempt_all : {W : Type 0} → List (String × Action W ⊤) → W → List String × W
attempt_all [] w = ([], w)
attempt_all ((name, action) ∷ rest) w =
    let (r, w') = action w in
    let (failures, w'') = attempt_all rest w' in (cons_failure name r failures, w'')

abbrev pub event : String → List String → Fields
event environment failures = field "event" (text (Text.◌++◌ environment "_test_window_closed")) (
    field "apiDisabled" (Json.bool (not (contains "disable_api" failures))) (
      field "lambdaStopped" (Json.bool (not (contains "stop_lambda" failures))) (
        field "alarmDeleted" (Json.bool (not (contains "delete_traffic_alarm" failures)))
          (field "failedActions" (arr (array (map text failures))) end))))

abbrev pub raise_unless_empty : {W : Type 0} → List String → Action W ⊤
raise_unless_empty [] = pure tt
raise_unless_empty (_ ∷ _) =
    raise (runtime_error "One or more fail-closed actions did not complete.")

abbrev non_empty : String → String → Result String
non_empty name value =
    if Text.is_empty value
    then err (runtime_error (Text.◌++◌ "Required environment variable is missing: " name))
    else ok value

abbrev or_empty : Option String → String
or_empty none = ""
or_empty (some t) = t

module _ {W : Type 0} (std : Stdlib) (aws : Surroundings W) where
  abbrev pub actions : String → String → String → List (String × Action W ⊤)
  actions api_id function_name alarm_name =
      ("disable_api", aws.update_api api_id true)
      ∷ ("stop_lambda", aws.put_function_concurrency function_name 0)
      ∷ ("delete_traffic_alarm", aws.delete_alarms (alarm_name ∷ []))
      ∷ []

  unfoldable pub close_test_window : String → String → String → String → Action W ⊤
  unfolding attempt_all
  close_test_window api_id function_name alarm_name environment w =
      let (failures, w') = attempt_all (actions api_id function_name alarm_name) w in
      (aws.print (event environment failures) >> raise_unless_empty failures) w'

  unfoldable pub required_environment : String → Action W String
  required_environment name w =
      (non_empty name (strip (is_whitespace std) (or_empty (aws.environ name w))), w)

  unfoldable pub handler : Action W Fields
  unfolding required_environment close_test_window
  handler = do
    aws.client "apigatewayv2"
    aws.client "lambda"
    aws.client "cloudwatch"
    api_id ← required_environment "TARGET_API_ID"
    function_name ← required_environment "TARGET_FUNCTION_NAME"
    alarm_name ← required_environment "TRAFFIC_ALARM_NAME"
    environment ← required_environment "APP_ENVIRONMENT"
    close_test_window api_id function_name alarm_name environment
    pure (field "closed" (Json.bool true) end)
