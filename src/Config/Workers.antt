-- ===== src/Config/Workers.antt =====
-- outbox/autostart.ts and broker/broker-url.ts, and the first lines of `onModuleInit` of the two
-- services of the broker: whether they start, and with which URL.
use course_project.Base.{
  Bool, false, not, ◌&&◌, Option, none, some, Result, ok, err, if◌then◌else◌, ◌≡◌, refl, Bool-cases,
  inl, inr, ◌⊎◌,
}
use course_project.Base.Text.{Text, codes, text_eq, truthy}
use course_project.Config.{Env, get_env, truthy_of}

-- What the program reads of a URL; `new URL(raw)` is a parameter, `none` where it throws.
pub record BrokerUrl : Type 0 where
  pub protocol : Text
  pub username : Text
  pub password : Text

-- `process.env.OUTBOX_AUTOSTART !== '0'`
abbrev pub is_zero : Option Text → Bool
is_zero none = false
is_zero (some v) = text_eq v (codes "0")

-- `outboxWorkersEnabled`
unfoldable pub outbox_workers_enabled : Env → Bool
outbox_workers_enabled env = not (is_zero (get_env (codes "OUTBOX_AUTOSTART") env))

-- The user and the password of the example file.
abbrev pub is_placeholder : BrokerUrl → Bool
is_placeholder url = text_eq url.username (codes "USER") && text_eq url.password (codes "PASSWORD")

abbrev pub accepted : Text → Option BrokerUrl → Option Text
accepted raw none = none
accepted raw (some url) =
    if is_placeholder url
    then none
    else if text_eq url.protocol (codes "amqp:")
    then some raw
    else none

abbrev pub configured : (Text → Option BrokerUrl) → Option Text → Option Text
configured parse none = none
configured parse (some raw) = accepted raw (parse raw)

-- `configuredBrokerUrl`
unfoldable pub configured_broker_url : (Text → Option BrokerUrl) → Option Text → Option Text
configured_broker_url parse raw = configured parse (truthy_of raw)

pub data BrokerUrlError : Type 0 where
  not_set : BrokerUrlError

-- `requiredBrokerUrl`
abbrev pub required : Option Text → Result BrokerUrlError Text
required none = err not_set
required (some url) = ok url

unfoldable pub required_broker_url : Env → Result BrokerUrlError Text
required_broker_url env = required (truthy_of (get_env (codes "BROKER_URL") env))

-- `if (!url || !outboxWorkersEnabled()) return;`: the URL that a service starts with. `setting` is
-- BROKER_URL in the configuration.
unfoldable pub start_url : (Text → Option BrokerUrl) → Option Text → Env → Option Text
unfolding configured_broker_url outbox_workers_enabled
start_url parse setting env =
    if outbox_workers_enabled env then configured_broker_url parse setting else none

accepted-raw :
    (raw : Text) (url : Option BrokerUrl)
    → (accepted raw url ≡ none) ⊎ (accepted raw url ≡ some raw)
accepted-raw raw none = inl refl
accepted-raw raw (some url) = elim (Bool-cases (is_placeholder url)) [
  | inl placeholder ↦ inl (rw placeholder refl)
  | inr real ↦ elim (Bool-cases (text_eq url.protocol (codes "amqp:"))) [
    | inl amqp ↦ inr (rw (real, amqp) refl)
    | inr other ↦ inl (rw (real, other) refl)
  ]
]

-- The URL that is accepted is the setting as it stands.
configured_broker_url-setting :
    (parse : Text → Option BrokerUrl) (setting : Option Text)
    → (configured_broker_url parse setting ≡ none) ⊎ (configured_broker_url parse setting ≡ setting)
unfolding configured_broker_url
configured_broker_url-setting parse none = inl refl
configured_broker_url-setting parse (some raw) = elim (Bool-cases (truthy raw)) [
  | inl given ↦ rw given (accepted-raw raw (parse raw))
  | inr empty ↦ inl (rw empty refl)
]

-- A service that starts uses the setting as it stands.
pub start_url-setting :
    (parse : Text → Option BrokerUrl) (setting : Option Text) (env : Env)
    → (start_url parse setting env ≡ none) ⊎ (start_url parse setting env ≡ setting)
unfolding start_url
start_url-setting parse setting env = elim (Bool-cases (outbox_workers_enabled env)) [
  | inl enabled ↦ rw enabled (configured_broker_url-setting parse setting)
  | inr shut ↦ inl (rw shut refl)
]
