-- ===== src/Delivery/Replays.antt =====
-- internal/delivery/replay.go: the request to deliver an event again. The UUID library, UTF-8 and
-- the classes of characters are arguments; `fresh_ids` is what the UUID library gives.
use go_webhook_delivery.Common.{
  Bool, not, ◌||◌, Option, some, ◌++◌, ltb, if◌then◌else◌, Bytes, bytes, bytes_eq, length, Result,
  ok, err,
}
use go_webhook_delivery.Golang.Strings.{trim_space}
use go_webhook_delivery.Signing.{Hmac}
use go_webhook_delivery.Delivery.Types.{nil_uuid}

pub data ReplayError : Type 0 where
  invalid_replay no_id : ReplayError

pub record ReplayCommand : Type 0 where
  pub command_id : Bytes
  pub audit_id : Bytes
  pub workspace_id : Bytes
  pub delivery_id : Bytes
  pub actor_id : Bytes
  pub reason : Bytes
  pub request_id : Bytes
  pub key_hash : Bytes
  pub fingerprint : Bytes

-- `valid_utf8` and `has_control` are the tests of `unicode/utf8` and `unicode` on a text.
pub record Texts : Type 0 where
  pub valid_utf8 : Bytes → Bool
  pub has_control : Bytes → Bool
  pub uuid_string : Bytes → Bytes

pub valid_reason : Texts → Bytes → Bool
valid_reason t value = not (
    ltb (length value) 1
    || ltb 500 (length value)
    || not (t.valid_utf8 value)
    || t.has_control value)

replay_mac : Hmac → Bytes → Bytes → Bytes
replay_mac h key value = h.mac key value

new_command :
    Hmac
    → Texts
    → Bytes
    → Bytes
    → Bytes
    → Bytes
    → Bytes
    → Bytes
    → Bytes
    → Bytes
    → Option Bytes
    → Option Bytes
    → Result ReplayError ReplayCommand
unfolding replay_mac
new_command h t key_pepper print_pepper workspace_id delivery_id actor_id idempotency_key reason
      request_id (some command_id) (some audit_id) =
    ok (record {
      command_id = command_id;
      audit_id = audit_id;
      workspace_id = workspace_id;
      delivery_id = delivery_id;
      actor_id = t.uuid_string actor_id;
      reason = reason;
      request_id = request_id;
      key_hash = replay_mac h key_pepper (bytes "replay-key:v1\n" ++ idempotency_key);
      fingerprint = replay_mac h print_pepper (
          bytes "replay-fingerprint:v1\n" ++ (t.uuid_string delivery_id ++ (bytes "\n" ++ reason)));
    })
new_command h t key_pepper print_pepper workspace_id delivery_id actor_id idempotency_key reason
      request_id _ _ =
    err no_id

-- The command that `Request` hands to the store.
pub replay_command :
    Hmac
    → Texts
    → Bytes
    → Bytes
    → Bytes
    → Bytes
    → Bytes
    → Bytes
    → Bytes
    → Bytes
    → Option Bytes
    → Option Bytes
    → Result ReplayError ReplayCommand
unfolding new_command valid_reason
replay_command h t key_pepper print_pepper workspace_id delivery_id actor_id idempotency_key
      raw_reason request_id command_id audit_id =
    let reason = trim_space raw_reason in
    if bytes_eq workspace_id nil_uuid
      || bytes_eq delivery_id nil_uuid
      || bytes_eq actor_id nil_uuid
      || ltb (length idempotency_key) 1
      || ltb 128 (length idempotency_key)
      || not (valid_reason t reason)
      || ltb (length request_id) 1
      || ltb 128 (length request_id)
    then err invalid_replay
    else new_command h t key_pepper print_pepper workspace_id delivery_id actor_id idempotency_key
        reason request_id command_id audit_id
