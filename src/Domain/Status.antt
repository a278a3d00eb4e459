-- ===== src/Domain/Status.antt =====
-- internal/domain/status.go: the parsing of an account's status, and what a user sees of an error.
use envoy_trade.Common.{
  Bool, true, false, ◌||◌, String, str_eq, contains, List, [], ◌∷◌, any, Result, ok, err, other,
  ◌≡◌, refl, if_cases, if◌then◌else◌, All, Error,
}
use envoy_trade.Common.Words.{to_lower, trim_space, is_blank}

-- AccountStatus's constants
abbrev pub status_active : String
status_active = "active"

abbrev pub status_error : String
status_error = "error"

abbrev pub status_pending : String
status_pending = "pending"

abbrev pub invalid_account_status : Error
invalid_account_status =
    other "invalid account status: must be 'active', 'ok', 'pending', or 'error'"

unfoldable pub parse_lower : String → Result String
parse_lower s =
    if str_eq s "active" || str_eq s "ok"
    then ok status_active
    else if str_eq s "pending"
    then ok status_pending
    else if str_eq s "error"
    then ok status_error
    else err invalid_account_status

-- ParseAccountStatus
unfoldable pub parse_account_status : String → Result String
parse_account_status s = parse_lower (to_lower (trim_space s))

-- AccountStatus.IsValid
unfoldable pub is_valid : String → Bool
is_valid s = str_eq s status_active || (str_eq s status_error || str_eq s status_pending)

-- AccountStatus.ToAPI
unfoldable pub to_api : String → String
to_api s =
    if str_eq s status_active then "ok" else if str_eq s status_pending then "pending" else "error"

-- RequiresDailySession
unfoldable pub requires_daily_session : String → Bool
requires_daily_session broker =
    let b = to_lower (trim_space broker) in str_eq b "zerodha" || str_eq b "kite"

abbrev pub contains_any : String → List String → Bool
contains_any s parts = any (contains s) parts

abbrev pub api_traces : List String
api_traces =
    "http://" ∷ "https://" ∷ "post " ∷ "get " ∷ "/api/" ∷ "connect/login" ∷ "session/token"
    ∷ "sess_id" ∷ "dial tcp" ∷ "get dhan" ∷ "dhan api error" ∷ "kite web login" ∷ "dhan sync failed"
    ∷ "connect login" ∷ "kite login error" ∷ "kite 2fa error" ∷ []

-- The cases of the switch, in order: what the message contains, and what the user is told.
abbrev pub explanations : List (List String × String)
explanations =
    (
      "401" ∷ "unauthorized" ∷ "token expired" ∷ "invalid token" ∷ "token revoked" ∷ [],
      "Broker session expired or token invalid",
    )
    ∷ (
      "totp" ∷ "2fa" ∷ "twofa" ∷ "external totp" ∷ [],
      "Invalid 2FA TOTP code or external TOTP not enabled",
    )
    ∷ (
      "password" ∷ "credentials" ∷ "user id" ∷ "user_id" ∷ "login error" ∷ [],
      "Invalid broker credentials or password",
    )
    ∷ (
      "500" ∷ "502" ∷ "503" ∷ "504" ∷ "gateway" ∷ "timeout" ∷ "dial" ∷ "connection refused"
          ∷ "econnrefused" ∷ "dh-1111" ∷ "server error" ∷ "service unavailable" ∷ [],
      "Broker server temporarily unavailable",
    )
    ∷ ("429" ∷ "rate limit" ∷ "too many requests" ∷ [], "Broker rate limit exceeded")
    ∷ ("missing" ∷ "required" ∷ [], "Missing broker API key or credentials")
    ∷ []

unfoldable pub explain : String → List (List String × String) → String
explain lower [] = "Authentication failed with broker"
explain lower ((parts, told) ∷ cases) =
    let rest = explain lower cases in if contains_any lower parts then told else rest

unfoldable pub sanitize_trimmed : String → String
sanitize_trimmed raw =
    if is_blank raw
    then ""
    else if contains_any (to_lower raw) api_traces
    then explain (to_lower raw) explanations
    else raw

-- SanitizeAuthError
unfoldable pub sanitize_auth_error : String → String
sanitize_auth_error raw = sanitize_trimmed (trim_space raw)

-- No trace of an API call, in any case of its letters.
abbrev pub IsClean : String → Type 0
IsClean s = contains_any (to_lower s) api_traces ≡ false

blank-IsClean : IsClean ""
unfolding to_lower contains
blank-IsClean = refl

told-IsClean : All (λ (c : List String × String). IsClean c.1) explanations
unfolding to_lower contains
told-IsClean = (refl, (refl, (refl, (refl, (refl, (refl, tt))))))

fallback-IsClean : IsClean "Authentication failed with broker"
unfolding to_lower contains
fallback-IsClean = refl

explain-IsClean :
    (lower : String) (cases : List (List String × String))
    → All (λ (c : List String × String). IsClean c.1) cases
    → IsClean (explain lower cases)
unfolding explain
explain-IsClean lower [] h = fallback-IsClean
explain-IsClean lower ((parts, told) ∷ cases) h =
    if_cases IsClean (contains_any lower parts) told (explain lower cases) (λ _. h.0)
      (λ _. explain-IsClean lower cases h.1)

sanitize_trimmed-IsClean : (s : String) → IsClean (sanitize_trimmed s)
unfolding sanitize_trimmed
sanitize_trimmed-IsClean s =
    if_cases IsClean (is_blank s) "" _ (λ _. blank-IsClean)
      (λ _.
        if_cases IsClean (contains_any (to_lower s) api_traces) _ s
          (λ _. explain-IsClean (to_lower s) explanations told-IsClean) (λ h. h))

-- No message that SanitizeAuthError gives contains, in any case of its letters, one of the sixteen traces of
-- backend calls that it looks for.
pub sanitize_auth_error-IsClean : (raw : String) → IsClean (sanitize_auth_error raw)
unfolding sanitize_auth_error
sanitize_auth_error-IsClean raw = sanitize_trimmed-IsClean (trim_space raw)

-- What a parsed status is: one of the constants, which its API form parses to again.
abbrev pub Parsed : Result String → Type 0
Parsed (err e) = e ≡ invalid_account_status
Parsed (ok status) = (is_valid status ≡ true) × (parse_account_status (to_api status) ≡ ok status)

parse_lower-Parsed : (s : String) → Parsed (parse_lower s)
unfolding parse_lower parse_account_status is_valid to_api to_lower trim_space
parse_lower-Parsed s =
    if_cases Parsed (str_eq s "active" || str_eq s "ok") _ _ (λ _. (refl, refl))
      (λ _.
        if_cases Parsed (str_eq s "pending") _ _ (λ _. (refl, refl))
          (λ _. if_cases Parsed (str_eq s "error") _ _ (λ _. (refl, refl)) (λ _. refl)))

-- ParseAccountStatus refuses a text with ErrInvalidAccountStatus, or gives a valid status, and then
-- parsing what ToAPI shows of that status gives the same status.
pub parse_account_status-Parsed : (s : String) → Parsed (parse_account_status s)
unfolding parse_account_status
parse_account_status-Parsed s = parse_lower-Parsed (to_lower (trim_space s))
