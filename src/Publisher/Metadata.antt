-- ===== src/Publisher/Metadata.antt =====
-- `sanitize_metadata` of pinterest_publisher.py: what may be kept of a provider's answer.
use sm_poster.Prelude.{
  ℕ, String, Bool, ◌&&◌, Option, none, some, List, [], ◌∷◌, leb, str_eq, if◌then◌else◌, char_count,
  all_chars, is_digit, text_in,
}
use sm_poster.Domain.{SafeMetadata}

-- A value of Python, as far as the code tells them apart.
pub data Value : Type 0 where
  null other : Value
  bool : Bool → Value
  int negative : ℕ → Value
  text : String → Value

-- `re.fullmatch(r"[0-9]{1,80}", s)`
unfoldable pub is_numeric_pin_id : String → Bool
is_numeric_pin_id s = leb 1 (char_count s) && leb (char_count s) 80 && all_chars is_digit s

-- `SAFE_PROVIDER_ERROR_CODES`
abbrev pub safe_provider_error_codes : List String
safe_provider_error_codes =
    "PROVIDER_REJECTED" ∷ "PROVIDER_SERVER_ERROR" ∷ "PROVIDER_TIMEOUT" ∷ "PROVIDER_TRANSPORT_ERROR"
    ∷ "PROVIDER_INVALID_RESPONSE" ∷ "PROVIDER_INCOMPLETE_SUCCESS" ∷ "PROVIDER_AMBIGUOUS"
    ∷ "PINTEREST_BAD_REQUEST" ∷ "PINTEREST_UNAUTHORIZED" ∷ "PINTEREST_FORBIDDEN"
    ∷ "PINTEREST_NOT_FOUND" ∷ "PINTEREST_CONFLICT" ∷ "PINTEREST_UNPROCESSABLE"
    ∷ "PINTEREST_RATE_LIMITED" ∷ "PINTEREST_CLIENT_REJECTED" ∷ "PINTEREST_PROVIDER_5XX"
    ∷ "PINTEREST_TIMEOUT" ∷ "PINTEREST_TRANSPORT_ERROR" ∷ "PINTEREST_INVALID_RESPONSE"
    ∷ "PINTEREST_MISSING_PIN_ID" ∷ []

-- Shut where it is not needed, since the list of codes is long.
unfoldable pub is_safe_code : String → Bool
is_safe_code s = text_in s safe_provider_error_codes

unfoldable pub safe_http_status : Value → Option ℕ
safe_http_status (int n) = if leb 100 n && leb n 599 then some n else none
safe_http_status v = none

unfoldable pub safe_error_code : Value → Option String
safe_error_code (text s) = if is_safe_code s then some s else none
safe_error_code v = none

unfoldable pub safe_pin_id : Value → Option String
safe_pin_id (text s) = if is_numeric_pin_id s then some s else none
safe_pin_id v = none

abbrev pub no_metadata : SafeMetadata
no_metadata = record { validated_pin_id = none; http_status = none; provider_error_code = none }

abbrev or_keep : {A : Type 0} → Option A → Option A → Option A
or_keep none old = old
or_keep (some a) old = some a

-- One key and its value: a key that is not allowlisted, or whose value does not fit, is skipped.
unfoldable pub sanitize_entry : String → Value → SafeMetadata → SafeMetadata
sanitize_entry key item kept =
    if str_eq key "http_status"
    then record kept { http_status = or_keep (safe_http_status item) kept.http_status }
    else if str_eq key "provider_error_code"
    then record kept {
      provider_error_code = or_keep (safe_error_code item) kept.provider_error_code;
    }
    else if str_eq key "validated_pin_id"
    then record kept { validated_pin_id = or_keep (safe_pin_id item) kept.validated_pin_id }
    else kept

abbrev pub Metadata : Type 0
Metadata = List (String × Value)

sanitize_from : SafeMetadata → Metadata → SafeMetadata
sanitize_from kept [] = kept
sanitize_from kept ((key, item) ∷ rest) = sanitize_from (sanitize_entry key item kept) rest

-- A dict; the code returns an empty one for a value that is none.
unfoldable pub sanitize_metadata : Metadata → SafeMetadata
unfolding sanitize_from
sanitize_metadata value = sanitize_from no_metadata value
