-- ===== src/Messages/Sending.antt =====
-- d2c_messaging.cpp: the context of a message that is processed, the transport to the IoT Hub, and
-- ProcessMessage.
use mbed_ce_client_for_azure.Base.{
  ℕ, ◌+◌, ◌%◌, ◌^◌, Bool, true, false, ◌&&◌, Option, none, some, List, [], ◌∷◌, ◌++◌, leb, ◌==◌,
  if◌then◌else◌, is_some, Bytes,
}
use mbed_ce_client_for_azure.Messages.{
  Message, MessageStatus, in_progress, waiting_for_response, failed, replaced, MessageEvent, sent,
  zeroed_message, set_message_status, processing_completed,
}
use mbed_ce_client_for_azure.Messages.Strategy.{RetryStrategy, fatal_error_wait_time_sec}

-- A transport function: the default one, or another of the program.
pub data Transport : Type 0 where
  hub : Transport
  custom : ℕ → Transport

-- ADUC_D2C_Message_Processing_Context, less its type, which is its place, its mutex, and the
-- `initialized` that nothing reads
pub record Context : Type 0 where
  pub transport_func : Option Transport
  pub message : Message
  pub retry_strategy : RetryStrategy
  pub retries : ℕ  -- unsigned int
  pub next_retry_timestamp_epoch : ℕ

-- The pending message and the processing context of one message type.
pub record Slot : Type 0 where
  pub pending : Message
  pub context : Context

-- What is not in this file: the time, the handle that a variable holds, the result of
-- ClientHandle_SendReportedState, and the other transport functions.
pub record Cloud : Type 0 where
  pub now : ℕ
  pub handle_at : ℕ → Option ℕ
  pub send_reported_state : ℕ → Bytes → ℕ
  pub send_custom : ℕ → Message → Message × ℕ × List MessageEvent

abbrev pub is_status : MessageStatus → MessageStatus → Bool
is_status in_progress in_progress = true
is_status waiting_for_response waiting_for_response = true
is_status _ _ = false

-- The handle that the message points to, where there is one.
pointed : Cloud → Message → Option ℕ
pointed cloud m = elim m.cloud_service_handle [ none ↦ none | some a ↦ cloud.handle_at a ]

-- ADUC_D2C_Default_Message_Transport_Function. A message without content, for which `strlen` would
-- read NULL, is never sent.
unfoldable pub default_transport : Cloud → Message → Message × ℕ × List MessageEvent
unfolding pointed
default_transport cloud m = elim (pointed cloud m) [
  | none ↦ (m, 1, [])
  | some h ↦ elim m.content [
    | none ↦ (m, 1, [])
    | some c ↦
        let result = cloud.send_reported_state h c in
        let (m', events) =
          if result == 0
          then set_message_status m waiting_for_response
          else processing_completed m failed in
        (m', result, sent h c ∷ events)
  ]
]

unfoldable pub run_transport : Cloud → Transport → Message → Message × ℕ × List MessageEvent
run_transport cloud hub m = default_transport cloud m
run_transport cloud (custom k) m = cloud.send_custom k m

-- The part of ProcessMessage under `shouldSend`.
unfoldable pub send : Cloud → Context → Context × List MessageEvent
send cloud ctx = elim ctx.transport_func [
  | none ↦ (
    record ctx {
      next_retry_timestamp_epoch = ctx.next_retry_timestamp_epoch + fatal_error_wait_time_sec;
    },
    [],
  )
  | some t ↦
      let tried : Message = record (ctx.message) {
        attempts = (ctx.message.attempts + 1) % 2 ^ 32;
      } in
      let (m, result, events) = run_transport cloud t tried in
      (
        record ctx {
          message = m;
          next_retry_timestamp_epoch =
              if result == 0
              then ctx.next_retry_timestamp_epoch
              else ctx.next_retry_timestamp_epoch + fatal_error_wait_time_sec;
        },
        events,
      )
]

-- The pending message takes the place of the one that is processed.
unfoldable pub take_pending : Cloud → Slot → Slot × List MessageEvent
take_pending cloud slot =
    let (old, ended) = processing_completed slot.context.message replaced in
    let (m, started) = set_message_status (record (slot.pending) { attempts = 0 }) in_progress in
    let (ctx, events) = send cloud (record (slot.context) {
      message = m;
      retries = 0;
      next_retry_timestamp_epoch = cloud.now;
    }) in
    (record { pending = zeroed_message; context = ctx }, ended ++ started ++ events)

-- The message that is processed is sent again.
unfoldable pub send_again : Cloud → Slot → Slot × List MessageEvent
send_again cloud slot =
    let (ctx, events) = send cloud slot.context in (record slot { context = ctx }, events)

unfoldable pub process_message : Cloud → Slot → Slot × List MessageEvent
unfolding take_pending send_again
process_message cloud slot =
    let live = is_some slot.context.message.content in
    if is_some slot.pending.content
    then (if live && is_status slot.context.message.status waiting_for_response
        then (slot, [])
        else take_pending cloud slot)
    else if live
        && is_status slot.context.message.status in_progress
        && leb slot.context.next_retry_timestamp_epoch cloud.now
    then send_again cloud slot
    else (slot, [])
