-- ===== src/Validation/Report.antt =====
-- How the validators of api/v1alpha1/cashumint_webhook.go collect errors, and
-- `validateSecretKeySelector`.
use cashu_operator.Api.{SecretKeySelector}
use cashu_operator.Common.{
  Bool, Option, String, List, if◌then◌else◌, [], none, ◌==◌, ◌∷◌, some, ◌<>◌, join, ◌||◌,
}

-- `if bad { errs = append(errs, …) }`
abbrev pub problem : Bool → String → List String
problem bad message = if bad then message ∷ [] else []

-- `if err := …; err != nil { errs = append(errs, err) }`
abbrev pub errors : Option String → List String
errors none = []
errors (some e) = e ∷ []

-- `if len(errs) > 0 { return fmt.Errorf(…, errs) }; return nil`; `%v` prints a list in brackets,
-- its items parted by spaces.
unfoldable pub report : String → List String → Option String
report title [] = none
report title (e ∷ es) = some (title <> ("[" <> (join " " (e ∷ es) <> "]")))

-- `validateSecretKeySelector`
unfoldable pub validate_secret_key_selector :
    String → Option SecretKeySelector → Bool → Option String
validate_secret_key_selector path none required =
    if required then some (path <> " is required") else none
validate_secret_key_selector path (some r) required =
    if r.name == "" || r.key == "" then some (path <> ".name and key are required") else none
