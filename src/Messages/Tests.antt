-- ===== src/Messages/Tests.antt =====
-- Runs of the messages of d2c_messaging.cpp, at which its theorems are applied.
use mbed_ce_client_for_azure.Base.{
  ℕ, ◌+◌, Bytes, ◌∷◌, inl, Bool, true, false, some, none, List, [], ◌++◌, ◌≡◌, refl, arith, codes,
}
use mbed_ce_client_for_azure.Messages.{
  Message, MessageEvent, zeroed_message, in_progress, waiting_for_response, set_message_status,
  processing_completed,
}
use mbed_ce_client_for_azure.Messages.Strategy.{Clock, default_retry_strategy}
use mbed_ce_client_for_azure.Messages.Sending.{
  Context, Slot, Cloud, hub, process_message, send, run_transport, default_transport,
}
use mbed_ce_client_for_azure.Messages.Answers.{Responses, answered}
use mbed_ce_client_for_azure.Messages.Store.{
  Messaging, Request, messaging_init, messaging_do_work, messaging_uninit, send_async, for_each,
  at_type, queue, initial_slot,
}
use mbed_ce_client_for_azure.Messages.Conserved.{IsFair, completions}
use mbed_ce_client_for_azure.Messages.Accepted.{
  all_held, Reached, here, next, accepts, works, completed_once,
}
use mbed_ce_client_for_azure.Messages.Latest.{waits, latest_sent}
use mbed_ce_client_for_azure.Messages.Contents.{IsHonest}
use mbed_ce_client_for_azure.Messages.Mailbox.{
  SlotRun, at_rest, puts_next, goes_on, queues, works_on, BoxRun, mailbox, IsAmong, slot_refines,
  only_queued,
}
use mbed_ce_client_for_azure.Messages.Verdict.{meaning, by_meaning, answered-by_meaning}

abbrev fresh : Messaging
fresh = record { core_initialized = false; slots = [] }

abbrev hello : Request
hello = record {
  handle = some 3;
  address = 40;
  text = codes "hi";
  on_response = none;
  on_completed = some 1;
  on_status_changed = some 2;
  user_data = none;
}

-- A client that refuses what it is given to send.
abbrev cloud : Cloud
cloud = record {
  now = 20;
  handle_at = λ a. some 9;
  send_reported_state = λ h text. 1;
  send_custom = λ k m. (m, 0, []);
}

cloud-IsFair : IsFair cloud
unfolding IsFair completions
cloud-IsFair k m o = (o, omega arith)

abbrev asked : Messaging × Bool × List MessageEvent
asked = send_async 5 true 0 (some hello) (messaging_init fresh).0

abbrev worked : Messaging × List MessageEvent
worked = messaging_do_work cloud asked.0

run : Reached (messaging_init fresh).0 1 (([] ++ asked.2) ++ worked.1) worked.0
unfolding messaging_init
run = next (next here (accepts 5 0 hello (omega arith) refl)) (works cloud cloud-IsFair)

completed_once_example :
    (all_held worked.0.slots + completions (([] ++ asked.2) ++ worked.1) ≡ 1)
    × (all_held (messaging_uninit worked.0).0.slots ≡ 0)
    × (completions ((([] ++ asked.2) ++ worked.1) ++ (messaging_uninit worked.0).1) ≡ 1)
completed_once_example = completed_once fresh refl run

-- The refused message is completed at once.
refused_at_once : completions worked.1 ≡ 1
unfolding send_async messaging_init messaging_do_work completions for_each at_type process_message
    queue set_message_status initial_slot processing_completed send run_transport default_transport
refused_at_once = refl

abbrev clock : Clock
clock = record { now = 100; rand = 0; rand_max = 7 }

abbrev held_message : Message
held_message = record zeroed_message { content = some (codes "hi"); status = in_progress }

abbrev throttled : Context
throttled = record {
  transport_func = some hub;
  message = held_message;
  retry_strategy = default_retry_strategy;
  retries = 2;
  next_retry_timestamp_epoch = 90;
}

abbrev no_responses : Responses
no_responses k s ctx = (true, 0)

answered-by_meaning_example :
    answered no_responses clock 429 throttled
    ≡ by_meaning
        (meaning 429)
        clock
        (record throttled { message = record held_message { last_http_status = 429 } })
answered-by_meaning_example =
    answered-by_meaning no_responses clock 429 throttled (codes "hi") refl refl refl (omega arith)
      (omega arith)

abbrev accepting : Cloud
accepting = record cloud { send_reported_state = λ h text. 0 }

not_waiting : waits initial_slot ≡ false
unfolding waits initial_slot
not_waiting = refl

on_hub : initial_slot.context.transport_func ≡ some hub
unfolding initial_slot
on_hub = refl

abbrev after : Slot
after = (process_message accepting (queue 5 hello initial_slot).0).0

latest_sent_example :
    (after.context.message.content ≡ some (codes "hi"))
    × (after.context.message.status ≡ waiting_for_response)
    × (after.context.message.attempts ≡ 1)
    × (after.pending.content ≡ none)
    × ((cloud' : Cloud) → process_message cloud' after ≡ (after, []))
    × ((cloud' : Cloud) (now' : ℕ) (r' : Request)
        → process_message cloud' (queue now' r' after).0 ≡ ((queue now' r' after).0, []))
latest_sent_example =
    latest_sent 5 hello accepting initial_slot 3 9 not_waiting on_hub refl refl refl

cloud-IsHonest : IsHonest cloud
unfolding IsHonest
cloud-IsHonest k m = inl refl

abbrev refused_slot : Slot
refused_slot = (process_message cloud (queue 5 hello initial_slot).0).0

-- A request is queued, and refused by the client.
refused_run : SlotRun initial_slot (codes "hi" ∷ []) refused_slot
refused_run = goes_on (puts_next at_rest (queues 5 hello)) (works_on cloud cloud-IsHonest)

slot_refines_example : BoxRun (mailbox initial_slot) (codes "hi" ∷ []) (mailbox refused_slot)
slot_refines_example = slot_refines refused_run

only_queued_example :
    ((text : Bytes)
      → refused_slot.context.message.content ≡ some text
      → IsAmong text (codes "hi" ∷ []))
    × ((text : Bytes) → refused_slot.pending.content ≡ some text → IsAmong text (codes "hi" ∷ []))
only_queued_example = only_queued refused_run
