-- ===== src/Endpoint/Examples.antt =====
-- Two event types.
use go_webhook_delivery.Common.{
  ◌≤◌, ◌≡◌, refl, List, [], ◌∷◌, Bytes, bytes, bytes_eq, length, All, ok,
}
use go_webhook_delivery.Endpoint.{
  validate_event_types, IsEventType, Fresh, validate_event_types-Fresh,
}

abbrev pub two_types : List Bytes
two_types = bytes "order.paid" ∷ bytes "order.created" ∷ []

pub accepted : validate_event_types two_types ≡ ok two_types
unfolding validate_event_types bytes_eq
accepted = refl

validate_event_types-Fresh_run :
    (two_types ≡ two_types)
    × (1 ≤ length two_types)
    × (length two_types ≤ 100)
    × All IsEventType two_types
    × Fresh [] two_types
validate_event_types-Fresh_run = validate_event_types-Fresh two_types two_types accepted
