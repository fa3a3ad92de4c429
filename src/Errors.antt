-- ===== src/Errors.antt =====
-- Go's `error` values, and pkg/apis/kferrors.go. A text error is what `fmt.Errorf` and `errors.New`
-- build; `api_not_found` and `api_conflict` are the API server's errors that the code tells apart.
use Prim.Native.Nat.{ℕ, zero, suc, ◌/◌, ◌%◌}
use opendatahub_operator.Prelude.{String, ◌<>◌, Bool, false, if◌then◌else◌, nat_eq, ltb, ◌+◌}

pub data Error : Type 0 where
  kf_error : ℕ → String → Error
  secret_not_found : String → Error
  app_not_found : String → Error
  api_not_found : String → Error
  api_conflict : String → Error
  text : String → Error
  with_stack : Error → Error

-- The status codes.
abbrev pub invalid_argument : ℕ
invalid_argument = 400

abbrev pub not_found : ℕ
not_found = 404

abbrev pub internal_error : ℕ
internal_error = 500

abbrev pub unknown : ℕ
unknown = 520

-- What `%d` and `%v` print for a number.
digit : ℕ → String
digit n =
    if nat_eq n 0
    then "0"
    else if nat_eq n 1
    then "1"
    else if nat_eq n 2
    then "2"
    else if nat_eq n 3
    then "3"
    else if nat_eq n 4
    then "4"
    else if nat_eq n 5
    then "5"
    else if nat_eq n 6
    then "6"
    else if nat_eq n 7
    then "7"
    else if nat_eq n 8
    then "8"
    else "9"

decimal_fuel : ℕ → ℕ → String
decimal_fuel zero n = ""
decimal_fuel (suc fuel) n =
    let longer = decimal_fuel fuel (n / 10) <> digit (n % 10) in
    if ltb n 10 then digit n else longer

-- A number has at most as many digits as one more than its value.
unfoldable pub decimal : ℕ → String
unfolding decimal_fuel digit
decimal n = decimal_fuel (n + 1) n

-- `err.Error()`
unfoldable pub error_message : Error → String
unfolding decimal
error_message (kf_error code message) =
    " (kubeflow.error): Code " <> (decimal code <> (" with message: " <> message))
error_message (secret_not_found name) = "Missing secret " <> name
error_message (app_not_found name) = "Application " <> (name <> " is missing")
error_message (api_not_found message) = message
error_message (api_conflict message) = message
error_message (text message) = message
error_message (with_stack e) = error_message e

unfoldable pub is_not_found : Error → Bool
is_not_found (kf_error code message) = nat_eq code not_found
is_not_found _ = false

unfoldable pub new_kf_error_with_message : Error → String → Error
new_kf_error_with_message (kf_error code message) msg = kf_error code (msg <> ("; " <> message))
new_kf_error_with_message e msg = kf_error unknown (msg <> ("; " <> error_message e))
