-- ===== src/Messages/Store.antt =====
-- The static variables of d2c_messaging.cpp and the operations on them. The mutexes are left out: each
-- operation runs as a whole.
use mbed_ce_client_for_azure.Base.{
  ℕ, zero, suc, Bool, true, false, Option, none, some, List, [], ◌∷◌, ◌++◌, if◌then◌else◌, is_some,
  Bytes,
}
use mbed_ce_client_for_azure.Messages.{
  pending, replaced, canceled, MessageEvent, zeroed_message, set_message_status,
  processing_completed,
}
use mbed_ce_client_for_azure.Messages.Strategy.{Clock, RetryStrategy, default_retry_strategy}
use mbed_ce_client_for_azure.Messages.Sending.{Transport, hub, Slot, Cloud, process_message}
use mbed_ce_client_for_azure.Messages.Answers.{Responses, answered}

-- A slot for each ADUC_D2C_Message_Type, in the order of the type.
pub record Messaging : Type 0 where
  pub core_initialized : Bool
  pub slots : List Slot

unfoldable pub initial_slot : Slot
initial_slot = record {
  pending = zeroed_message;
  context = record {
    transport_func = some hub;
    message = zeroed_message;
    retry_strategy = default_retry_strategy;
    retries = 0;
    next_retry_timestamp_epoch = 0;
  };
}

unfoldable pub messaging_init : Messaging → Messaging × Bool
messaging_init g = if g.core_initialized then (g, true) else (
  record {
    core_initialized = true;
    slots =
        initial_slot ∷ initial_slot ∷ initial_slot ∷ initial_slot ∷ initial_slot ∷ initial_slot
        ∷ [];
  },
  true,
)

-- A loop over the types.
unfoldable pub for_each :
    (Slot → Slot × List MessageEvent) → List Slot → List Slot × List MessageEvent
for_each f [] = ([], [])
for_each f (slot ∷ slots) =
    let (slot', events) = f slot in
    let (slots', events') = for_each f slots in (slot' ∷ slots', events ++ events')

-- The access to the arrays at a type.
unfoldable pub at_type :
    ℕ → (Slot → Slot × List MessageEvent) → List Slot → List Slot × List MessageEvent
at_type t f [] = ([], [])
at_type zero f (slot ∷ slots) = let (slot', events) = f slot in (slot' ∷ slots, events)
at_type (suc t) f (slot ∷ slots) =
    let (slots', events) = at_type t f slots in (slot ∷ slots', events)

unfoldable pub messaging_do_work : Cloud → Messaging → Messaging × List MessageEvent
messaging_do_work cloud g =
    let (slots', events) = for_each (process_message cloud) g.slots in
    (record g { slots = slots' }, events)

unfoldable pub cancel_slot : Slot → Slot × List MessageEvent
cancel_slot slot =
    let (m, events) = processing_completed slot.pending canceled in
    let (m', events') = processing_completed slot.context.message canceled in
    (
      record slot { pending = m; context = record (slot.context) { message = m' } },
      events ++ events',
    )

unfoldable pub messaging_uninit : Messaging → Messaging × List MessageEvent
messaging_uninit g =
    let (slots', events) = for_each cancel_slot g.slots in
    if g.core_initialized
    then (record { core_initialized = false; slots = slots' }, events)
    else (g, [])

-- What a caller of ADUC_D2C_Message_SendAsync gives.
pub record Request : Type 0 where
  pub handle : Option ℕ
  pub address : ℕ
  pub text : Bytes
  pub on_response : Option ℕ
  pub on_completed : Option ℕ
  pub on_status_changed : Option ℕ
  pub user_data : Option ℕ

-- The pending message that is replaced is completed only if it has a callback for that.
unfoldable pub replace_pending : Slot → List MessageEvent
replace_pending slot =
    if is_some slot.pending.content
    then (if is_some slot.pending.completed_callback
        then (processing_completed slot.pending replaced).1
        else [])
    else []

unfoldable pub queue : (now : ℕ) → Request → Slot → Slot × List MessageEvent
unfolding replace_pending
queue now r slot =
    let (m, events) =
      set_message_status
        (record zeroed_message {
          cloud_service_handle = r.handle;
          original_content = some r.address;
          content = some r.text;
          response_callback = r.on_response;
          completed_callback = r.on_completed;
          status_changed_callback = r.on_status_changed;
          content_submit_time = now;
          user_data = r.user_data;
        })
        pending in
    (record slot { pending = m }, replace_pending slot ++ events)

-- ADUC_D2C_Message_SendAsync: a NULL message is `none`, and `allocated` says whether the copy
-- succeeds.
unfoldable pub send_async :
    (now : ℕ) (allocated : Bool) (t : ℕ)
    → Option Request
    → Messaging
    → Messaging × Bool × List MessageEvent
send_async now allocated t none g = (g, false, [])
send_async now allocated t (some r) g =
    let (slots', events) = at_type t (queue now r) g.slots in
    if allocated then (record g { slots = slots' }, true, events) else (g, false, [])

-- The answer of the hub, to the context of a type.
unfoldable pub answer_slot : Responses → Clock → (http_status : ℕ) → Slot → Slot × List MessageEvent
answer_slot responses clock http_status slot =
    let (ctx, events) = answered responses clock http_status slot.context in
    (record slot { context = ctx }, events)

unfoldable pub answer :
    Responses → Clock → (t : ℕ) (http_status : ℕ) → Messaging → Messaging × List MessageEvent
answer responses clock t http_status g =
    let (slots', events) = at_type t (answer_slot responses clock http_status) g.slots in
    (record g { slots = slots' }, events)

unfoldable pub set_transport_in : Option Transport → Slot → Slot × List MessageEvent
set_transport_in transport slot =
    (record slot { context = record (slot.context) { transport_func = transport } }, [])

unfoldable pub messaging_set_transport : (t : ℕ) → Option Transport → Messaging → Messaging
messaging_set_transport t transport g = record g {
  slots = (at_type t (set_transport_in transport) g.slots).0;
}

unfoldable pub set_strategy_in : RetryStrategy → Slot → Slot × List MessageEvent
set_strategy_in strategy slot =
    (record slot { context = record (slot.context) { retry_strategy = strategy } }, [])

unfoldable pub messaging_set_retry_strategy : (t : ℕ) → RetryStrategy → Messaging → Messaging
messaging_set_retry_strategy t strategy g = record g {
  slots = (at_type t (set_strategy_in strategy) g.slots).0;
}
