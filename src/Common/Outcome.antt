-- ===== src/Common/Outcome.antt =====
-- Go's (value, error) results, and the error values that the components test by `errors.Is`.
use Prim.Native.String.{String, ◌++◌ as str_append}
use mathlib.Core.Bool.{Bool, true, false}
use mathlib.Core.Logic.{◌⊎◌, inl, inr}
use mathlib.Core.Path.{◌≡◌, refl}

-- `other` is an error that no `errors.Is` of the modelled code recognises, with its text, and
-- `wrap` is fmt.Errorf("prefix: %w", err), `noted` fmt.Errorf("%w (text)", err).
pub data Error : Type 0 where
  duplicate not_found conflict ip_already_assigned account_disabled auth_expired broker_unreachable
        full :
      Error
  cancelled deadline_exceeded : Error
  other : String → Error
  wrap : String → Error → Error
  noted : Error → String → Error

pub data Result {ℓ} (A : Type ℓ) : Type ℓ where
  ok : A → Result A
  err : Error → Result A

-- errors.Is(err, domain.ErrDuplicate)
abbrev pub is_duplicate : Error → Bool
is_duplicate duplicate = true
is_duplicate (wrap prefix e) = is_duplicate e
is_duplicate (noted e text) = is_duplicate e
is_duplicate _ = false

-- errors.Is(err, domain.ErrNotFound)
abbrev pub is_not_found : Error → Bool
is_not_found not_found = true
is_not_found (wrap prefix e) = is_not_found e
is_not_found (noted e text) = is_not_found e
is_not_found _ = false

-- errors.Is(err, context.Canceled) || errors.Is(err, context.DeadlineExceeded)
abbrev pub is_context_error : Error → Bool
is_context_error cancelled = true
is_context_error deadline_exceeded = true
is_context_error (wrap prefix e) = is_context_error e
is_context_error (noted e text) = is_context_error e
is_context_error _ = false

-- errors.Is(err, context.DeadlineExceeded)
abbrev pub is_deadline : Error → Bool
is_deadline deadline_exceeded = true
is_deadline (wrap prefix e) = is_deadline e
is_deadline (noted e text) = is_deadline e
is_deadline _ = false

-- err.Error()
unfoldable pub error_text : Error → String
error_text duplicate = "domain: duplicate"
error_text not_found = "domain: not found"
error_text conflict = "domain: conflict"
error_text ip_already_assigned = "domain: IP address is already assigned to another account"
error_text account_disabled = "domain: follower account is disabled"
error_text auth_expired = "domain: broker account login has expired"
error_text broker_unreachable = "domain: broker is not reachable"
error_text full = "memchan: queue full"
error_text cancelled = "context canceled"
error_text deadline_exceeded = "context deadline exceeded"
error_text (other s) = s
error_text (wrap prefix e) = str_append prefix (str_append ": " (error_text e))
error_text (noted e text) = str_append (error_text e) (str_append " (" (str_append text ")"))

abbrev pub IsOk {ℓ} : {A : Type ℓ} → Result A → Type 0
IsOk (ok a) = Unit
IsOk (err e) = ⊥

pub Result-cases {ℓ} :
    {A : Type ℓ} (r : Result A) → ((a : A) × (r ≡ ok a)) ⊎ ((e : Error) × (r ≡ err e))
Result-cases (ok a) = inl (a, refl)
Result-cases (err e) = inr (e, refl)
