-- ===== src/Schema/Validate.antt =====
-- src/oreeai_notetaker/schemas/call.py: the validators of `CallCreate`. The request is given with the
-- types of its fields; whether pydantic takes a text for an HTTP URL is a parameter.
use Prim.Native.Char.{code}
use Prim.Native.String.{◌∷◌ as ◌∷ₛ◌, [] as []ₛ, count}
use oreeai_notetaker.Prelude.{
  ℕ, zero, suc, ◌≤◌, ◌≡◌, ◌≢◌, refl, Bool, true, false, not, ◌&&◌, List, [], ◌∷◌, ◌++◌, Option,
  none, some, String, if◌then◌else◌, leb, ◌==◌, after_prefix, has_newline, arith,
}
use oreeai_notetaker.Call.{google_meet}
use oreeai_notetaker.Schema.{CallCreate}

-- What follows `n` letters from `a` to `z`.
unfoldable pub after_letters : ℕ → String → Option String
after_letters zero s = some s
after_letters (suc n) []ₛ = none
after_letters (suc n) (c ∷ₛ s) =
    let rest = after_letters n s in if leb 97 (code c) && leb (code c) 122 then rest else none

-- `(\?.*)?$` at the end
abbrev pub is_query : String → Bool
is_query []ₛ = true
is_query (c ∷ₛ s) = code c == 63 && not (has_newline s)

abbrev pub bind {ℓ} : {A : Type ℓ} → Option A → (A → Option String) → Option String
bind none f = none
bind (some a) f = f a

-- `MEETING_URL_PATTERN.fullmatch(value) is not None`
unfoldable pub is_meeting_url : String → Bool
unfolding after_letters after_prefix has_newline
is_meeting_url value =
    elim (bind (after_prefix "https://meet.google.com/" value) (λ a. bind (after_letters 3 a) (λ b.
      bind (after_prefix "-" b) (λ c.
        bind (after_letters 4 c) (λ d. bind (after_prefix "-" d) (λ e. after_letters 3 e)))))) [
          | none ↦ false
          | some rest ↦ is_query rest
        ]

abbrev pub min_webhook_secret_length : ℕ
min_webhook_secret_length = 16

-- What a validation comes to: the codes of its errors, or the request.
pub data Validated : Type 0 where
  invalid : List String → Validated
  valid : CallCreate → Validated

abbrev pub error_unless : Bool → String → List String
error_unless b error = if b then [] else error ∷ []

-- The errors of the fields, which pydantic collects.
unfoldable pub field_errors : (String → Bool) → CallCreate → List String
unfolding is_meeting_url
field_errors is_http_url request =
    error_unless (is_meeting_url request.meeting_url) "invalid_meeting_url"
    ++ (error_unless (leb 1 (count request.user_ref)) "string_too_short"
        ++ (error_unless (is_http_url request.webhook_url) "url_parsing"
            ++ error_unless (leb min_webhook_secret_length (count request.webhook_secret))
                "string_too_short"))

-- `_require_consent`
abbrev pub require_consent : CallCreate → Validated
require_consent request =
    if request.consent_ack then valid request else invalid ("consent_missing" ∷ [])

-- `_derive_platform`; there is one platform.
abbrev pub derive_platform : CallCreate → Validated
derive_platform request = valid (record request { platform = some google_meet })

-- The model validators, which run only if the fields are right.
unfoldable pub after_fields : List String → CallCreate → Validated
after_fields (error ∷ errors) request = invalid (error ∷ errors)
after_fields [] request = elim (require_consent request) [
  | invalid errors ↦ invalid errors
  | valid consented ↦ derive_platform consented
]

unfoldable pub validate : (String → Bool) → CallCreate → Validated
unfolding after_fields field_errors
validate is_http_url request = after_fields (field_errors is_http_url request) request

-- What validators should promise of what they come to.
abbrev pub IsAccepted : Validated → Type 0
IsAccepted (invalid errors) = errors ≢ []
IsAccepted (valid request) =
    (is_meeting_url request.meeting_url ≡ true)
    × (1 ≤ count request.user_ref)
    × (min_webhook_secret_length ≤ count request.webhook_secret)
    × (request.consent_ack ≡ true)
    × (request.platform ≡ some google_meet)

none_given :
    (b : Bool) (error : String) (errors : List String)
    → error_unless b error ++ errors ≡ []
    → (b ≡ true) × (errors ≡ [])
none_given true error errors h = (refl, h)
none_given false error errors h = cc

given : (b : Bool) (error : String) → error_unless b error ≡ [] → b ≡ true
given true error h = refl
given false error h = cc

consented :
    (request : CallCreate)
    → is_meeting_url request.meeting_url ≡ true
    → 1 ≤ count request.user_ref
    → min_webhook_secret_length ≤ count request.webhook_secret
    → IsAccepted (after_fields [] request)
unfolding after_fields
consented request url user secret = go request.consent_ack refl
  where
    go :
        (b : Bool)
        → request.consent_ack ≡ b
        → IsAccepted (elim (if b then valid request else invalid ("consent_missing" ∷ [])) [
          | invalid errors ↦ invalid errors
          | valid r ↦ derive_platform r
        ])
    go true e = (url, user, secret, e, refl)
    go false e = λ h. cc

after_fields-IsAccepted :
    (errors : List String) (request : CallCreate)
    → (errors ≡ [] → IsAccepted (after_fields [] request))
    → IsAccepted (after_fields errors request)
unfolding after_fields
after_fields-IsAccepted [] request h = h refl
after_fields-IsAccepted (error ∷ errors) request h = λ e. cc

-- A request that the validators let in has a Google Meet URL of the pattern, a reference to its user,
-- a webhook secret of at least 16 characters, the consent, and Google Meet as its platform; a request
-- that they do not let in comes with an error.
pub validate-IsAccepted :
    (is_http_url : String → Bool) (request : CallCreate) → IsAccepted (validate is_http_url request)
unfolding validate field_errors after_fields
validate-IsAccepted is_http_url request =
    after_fields-IsAccepted (field_errors is_http_url request) request (λ h.
      let (url, h₁) = none_given (is_meeting_url request.meeting_url) _ _ h in
      let (user, h₂) = none_given (leb 1 (count request.user_ref)) _ _ h₁ in
      let (hook, h₃) = none_given (is_http_url request.webhook_url) _ _ h₂ in
      consented request url (ground (arith, user)) (
        ground (
          arith,
          given (leb min_webhook_secret_length (count request.webhook_secret)) "string_too_short"
              h₃,
        )))
