-- ===== src/Messages/Latest.antt =====
-- d2c_messaging.cpp: a request that is queued is the one that is sent next, and is sent once until the
-- hub answers.
use mbed_ce_client_for_azure.Base.{
  ℕ, Bool, true, false, ◌&&◌, none, some, [], ◌≡◌, refl, arith, is_some, ◌∙◌,
}
use mbed_ce_client_for_azure.Messages.{waiting_for_response, set_message_status}
use mbed_ce_client_for_azure.Messages.Sending.{
  Slot, Cloud, hub, is_status, process_message, take_pending, send, run_transport,
  default_transport,
}
use mbed_ce_client_for_azure.Messages.Store.{Request, queue}

-- The message that is processed waits for its answer.
unfoldable pub waits : Slot → Bool
waits slot =
    is_some slot.context.message.content
    && is_status slot.context.message.status waiting_for_response

idle_while_waits :
    (cloud : Cloud) (slot : Slot) → waits slot ≡ true → process_message cloud slot ≡ (slot, [])
unfolding process_message waits
idle_while_waits cloud slot w = ground arith

queue-waits : (now : ℕ) (r : Request) (slot : Slot) → waits (queue now r slot).0 ≡ waits slot
unfolding queue waits
queue-waits now r slot = refl

sends :
    (now : ℕ) (r : Request) (cloud : Cloud) (slot : Slot) (a h : ℕ)
    → waits slot ≡ false
    → slot.context.transport_func ≡ some hub
    → r.handle ≡ some a
    → cloud.handle_at a ≡ some h
    → cloud.send_reported_state h r.text ≡ 0
    → let s = (process_message cloud (queue now r slot).0).0 in
      (s.context.message.content ≡ some r.text)
      × (s.context.message.status ≡ waiting_for_response)
      × (s.context.message.attempts ≡ 1)
      × (s.pending.content ≡ none)
unfolding process_message waits queue take_pending send run_transport default_transport
    set_message_status
sends now r cloud slot a h free transport address handle accepted =
    ground (arith, free, transport, address, handle, accepted)

-- Where no message of the type waits for its answer, the default transport is set, and the request's
-- handle points to a client that accepts what is sent: the work after a request sends the text of that
-- request, whatever was pending or processed before, and counts one attempt. From then on, with any
-- further request or none, the work changes nothing and reports nothing until the state changes
-- otherwise.
pub latest_sent :
    (now : ℕ) (r : Request) (cloud : Cloud) (slot : Slot) (a h : ℕ)
    → waits slot ≡ false
    → slot.context.transport_func ≡ some hub
    → r.handle ≡ some a
    → cloud.handle_at a ≡ some h
    → cloud.send_reported_state h r.text ≡ 0
    → let s = (process_message cloud (queue now r slot).0).0 in
      (s.context.message.content ≡ some r.text)
      × (s.context.message.status ≡ waiting_for_response)
      × (s.context.message.attempts ≡ 1)
      × (s.pending.content ≡ none)
      × ((cloud' : Cloud) → process_message cloud' s ≡ (s, []))
      × ((cloud' : Cloud) (now' : ℕ) (r' : Request)
          → process_message cloud' (queue now' r' s).0 ≡ ((queue now' r' s).0, []))
unfolding waits
latest_sent now r cloud slot a h free transport address handle accepted =
    let s = (process_message cloud (queue now r slot).0).0 in
    let sent = sends now r cloud slot a h free transport address handle accepted in
    let w : waits s ≡ true = rw (sent.0, sent.1) refl in
    (
      sent.0,
      sent.1,
      sent.2,
      sent.3,
      (λ cloud'. idle_while_waits cloud' s w),
      λ cloud' now' r'. idle_while_waits cloud' (queue now' r' s).0 (queue-waits now' r' s ∙ w),
    )
