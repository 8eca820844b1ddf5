-- ===== src/Service/World.antt =====
-- The state of the service and the ports it calls. `now` is the clock's reading while a request is
-- handled. A delivery adapter is known by its answers, which may depend on the calls made before.
use touch_connect.Prelude.{
  ℕ, ◌+◌, String, Bool, true, not, ◌&&◌, ltb, nat_eq, ◌!=◌, if◌then◌else◌, Option, none, some, List,
  [], ◌∷◌, ◌++◌,
}
use touch_connect.GoMap.{Map}
use touch_connect.Platform.{Platform}
use touch_connect.Domain.States.{endpoint_state_online}
use touch_connect.Domain.Errors.{Error, Result, ok}
use touch_connect.Domain.Model.{Endpoint, Message, Attempt}
use touch_connect.Exec.{Exec, pure, fail}
use touch_connect.Memory.Store.{Store}
use touch_connect.Memory.Refs.{next_ref}

pub record Settings : Type 0 where
  pub version : String
  pub minimum_worker_version : String
  pub endpoint_heartbeat_timeout : ℕ
  pub attempt_lease_duration : ℕ
  pub max_redelivery : ℕ
  pub now : ℕ

pub record DeliveryFetchRequest : Type 0 where
  pub endpoint_ref : String
  pub capabilities : List String

pub record DeliveryRecord : Type 0 where
  pub delivery_ref : String
  pub message_ref : String
  pub subject : String
  pub metadata : Map String

pub data DeliveryCall : Type 0 where
  publish_accepted_message : Message → DeliveryCall
  fetch_next_delivery : DeliveryFetchRequest → DeliveryCall
  ack_delivery : String → DeliveryCall
  nak_delivery : String → String → DeliveryCall

-- The answers, given the calls so far, newest last. A receipt is not used by the service.
pub record DeliveryAdapter : Type 0 where
  pub publish : List DeliveryCall → Message → Result (Unit {0})
  pub fetch : List DeliveryCall → DeliveryFetchRequest → Result (Option DeliveryRecord)
  pub ack : List DeliveryCall → String → Result (Unit {0})
  pub nak : List DeliveryCall → String → String → Result (Unit {0})

pub record Service : Type 0 where
  pub settings : Settings
  pub delivery : Option DeliveryAdapter
  pub platform : Platform

pub record World : Type 0 where
  pub store : Store
  pub calls : List DeliveryCall

-- A method of the store.
abbrev pub in_world : {A : Type 0} → World → Result A × Store → Result A × World
in_world w (r, s) = (r, record w { store = s })

unfoldable pub on_store : {A : Type 0} → Exec Store A → Exec World A
on_store m w = in_world w (m w.store)

unfoldable pub read : {A : Type 0} → (Store → A) → Exec World A
read f w = (ok (f w.store), w)

-- if !ok { return e }
unfoldable pub found : {A : Type 0} → Error → Option A → Exec World A
unfolding pure fail
found e none = fail e
found e (some a) = pure a

unfoldable pub allocate : String → Exec World String
allocate kind w = let (ref, s) = next_ref kind w.store in (ok ref, record w { store = s })

-- A call of the adapter is recorded with whatever it answers.
abbrev pub record_call : {A : Type 0} → DeliveryCall → Result A → Exec World A
record_call call r w = (r, record w { calls = w.calls ++ call ∷ [] })

unfoldable pub ack_with : DeliveryAdapter → String → Exec World (Unit {0})
ack_with adapter ref w = record_call (ack_delivery ref) (adapter.ack w.calls ref) w

unfoldable pub nak_with : DeliveryAdapter → String → String → Exec World (Unit {0})
nak_with adapter ref reason w =
    record_call (nak_delivery ref reason) (adapter.nak w.calls ref reason) w

unfoldable pub fetch_with :
    DeliveryAdapter → DeliveryFetchRequest → Exec World (Option DeliveryRecord)
fetch_with adapter request w =
    record_call (fetch_next_delivery request) (adapter.fetch w.calls request) w

unfoldable pub publish_with : DeliveryAdapter → Message → Exec World (Unit {0})
publish_with adapter message w =
    record_call (publish_accepted_message message) (adapter.publish w.calls message) w

unfoldable pub endpoint_is_stale : Settings → Endpoint → Bool
endpoint_is_stale settings endpoint =
    if endpoint.connection_state != endpoint_state_online
    then true
    else ltb (endpoint.last_heartbeat_at + settings.endpoint_heartbeat_timeout) settings.now

unfoldable pub lease_expired : Settings → Attempt → Bool
lease_expired settings attempt =
    not (nat_eq attempt.lease_expires_at 0) && ltb attempt.lease_expires_at settings.now
