-- ===== src/Messages/Conserved.antt =====
-- d2c_messaging.cpp: each message of one type that is accepted is completed once, or still held.
use mbed_ce_client_for_azure.Base.{
  ℕ, ◌+◌, ◌%◌, ◌^◌, ◌∙◌, Bool, true, Option, none, some, List, [], ◌∷◌, ◌++◌, ◌≡◌, refl, arith,
  is_some, if◌then◌else◌, Option-cases, inl, inr,
}
use mbed_ce_client_for_azure.Messages.{
  Message, MessageStatus, MessageEvent, status_changed, completed, sent, set_message_status,
  processing_completed, waiting_for_response, failed, in_progress, replaced, canceled, success,
  max_retries_reached,
}
use mbed_ce_client_for_azure.Messages.Strategy.{Clock, RetryInfo, RetryStrategy}
use mbed_ce_client_for_azure.Messages.Answers.{
  Responses, set_status_in, give_up, succeed, retry_later, scan, response, settle, answered,
}
use mbed_ce_client_for_azure.Messages.Store.{
  initial_slot, Request, queue, replace_pending, cancel_slot, answer_slot, set_transport_in,
  set_strategy_in,
}
use mbed_ce_client_for_azure.Messages.Sending.{
  Transport, hub, custom, Context, Slot, Cloud, default_transport, run_transport, send,
  take_pending, send_again, process_message,
}

-- How many completions are reported.
unfoldable pub completions : List MessageEvent → ℕ
completions [] = 0
completions (completed k m ∷ events) = completions events + 1
completions (_ ∷ events) = completions events

-- 1 for a message with content.
unfoldable pub live : Message → ℕ
live m = elim m.content [ none ↦ 0 | some c ↦ 1 ]

-- A message with content has a callback for its completion.
unfoldable pub owned : Message → Bool
owned m = if is_some m.content then is_some m.completed_callback else true

-- A transport function that reports a completion exactly when it takes the content of a message.
unfoldable pub IsFair : Cloud → Type 0
IsFair cloud =
    (k : ℕ) (m : Message)
    → owned m ≡ true
    → let r = cloud.send_custom k m in (owned r.0 ≡ true) × (live r.0 + completions r.2 ≡ live m)

pub completions-++ :
    (a b : List MessageEvent) → completions (a ++ b) ≡ completions a + completions b
unfolding completions
completions-++ [] b = omega arith
completions-++ (completed k m ∷ a) b = let ih = completions-++ a b in omega (arith, ih)
completions-++ (status_changed k m ∷ a) b = completions-++ a b
completions-++ (sent h c ∷ a) b = completions-++ a b

pub set_message_status-kept :
    (m : Message) (s : MessageStatus)
    → let r = set_message_status m s in
      (owned r.0 ≡ owned m) × (live r.0 ≡ live m) × (completions r.1 ≡ 0)
unfolding set_message_status owned live completions
set_message_status-kept m s = ground arith

pub processing_completed-kept :
    (m : Message) (s : MessageStatus)
    → owned m ≡ true
    → let r = processing_completed m s in
      (owned r.0 ≡ true) × (live r.0 ≡ 0) × (completions r.1 ≡ live m)
unfolding processing_completed set_message_status owned live completions
processing_completed-kept m s o = ground (arith, o)

pub default_transport-kept :
    (cloud : Cloud) (m : Message)
    → owned m ≡ true
    → let r = default_transport cloud m in
      (owned r.0 ≡ true) × (live r.0 + completions r.2 ≡ live m)
unfolding default_transport completions
default_transport-kept cloud m o =
    let waits = set_message_status-kept m waiting_for_response in
    let fails = processing_completed-kept m failed o in ground (arith, waits, fails, o)

pub run_transport-kept :
    (cloud : Cloud) (t : Transport) (m : Message)
    → IsFair cloud
    → owned m ≡ true
    → let r = run_transport cloud t m in (owned r.0 ≡ true) × (live r.0 + completions r.2 ≡ live m)
unfolding run_transport IsFair
run_transport-kept cloud hub m fair o = default_transport-kept cloud m o
run_transport-kept cloud (custom k) m fair o = fair k m o

pub send-kept :
    (cloud : Cloud) (ctx : Context)
    → IsFair cloud
    → owned ctx.message ≡ true
    → let r = send cloud ctx in
      (owned r.0.message ≡ true) × (live r.0.message + completions r.1 ≡ live ctx.message)
unfolding send owned live completions
send-kept cloud ctx fair o =
    let tried : Message = record (ctx.message) { attempts = (ctx.message.attempts + 1) % 2 ^ 32 } in
    elim (Option-cases ctx.transport_func) [
      | inl e ↦ ground (arith, e, o)
      | inr (t, e) ↦ let ran = run_transport-kept cloud t tried fair o in ground (arith, e, ran, o)
    ]

-- Both messages of a type have their callbacks.
pub IsOwned : Slot → Type 0
IsOwned slot = (owned slot.pending ≡ true) × (owned slot.context.message ≡ true)

-- How many messages a type holds.
unfoldable pub held : Slot → ℕ
held slot = live slot.pending + live slot.context.message

take_pending-kept :
    (cloud : Cloud) (slot : Slot)
    → IsFair cloud
    → IsOwned slot
    → let r = take_pending cloud slot in IsOwned r.0 × (held r.0 + completions r.1 ≡ held slot)
unfolding take_pending held owned live IsOwned
take_pending-kept cloud slot fair o =
    let m : Message = record (slot.pending) { attempts = 0 } in
    let ctx : Context = record (slot.context) {
      message = (set_message_status m in_progress).0;
      retries = 0;
      next_retry_timestamp_epoch = cloud.now;
    } in
    let old = processing_completed-kept slot.context.message replaced o.1 in
    let started = set_message_status-kept m in_progress in
    let tried = send-kept cloud ctx fair (started.0 ∙ o.0) in
    rw (completions-++, completions-++)
      ((refl, tried.0), omega (arith, old.2, started.1, started.2, tried.1))

pub process_message-kept :
    (cloud : Cloud) (slot : Slot)
    → IsFair cloud
    → IsOwned slot
    → let r = process_message cloud slot in IsOwned r.0 × (held r.0 + completions r.1 ≡ held slot)
unfolding process_message held completions send_again IsOwned
process_message-kept cloud slot fair o =
    let taken = take_pending-kept cloud slot fair o in
    let sent = send-kept cloud slot.context fair o.1 in ground (arith, taken, sent, o)

pub queue-kept :
    (now : ℕ) (r : Request) (slot : Slot)
    → is_some r.on_completed ≡ true
    → IsOwned slot
    → let q = queue now r slot in IsOwned q.0 × (held q.0 + completions q.1 ≡ held slot + 1)
unfolding queue replace_pending held owned live IsOwned processing_completed set_message_status
    completions
queue-kept now r slot own o = ground (arith, own, o)

pub cancel_slot-kept :
    (slot : Slot)
    → IsOwned slot
    → let q = cancel_slot slot in IsOwned q.0 × (held q.0 ≡ 0) × (completions q.1 ≡ held slot)
unfolding cancel_slot held IsOwned
cancel_slot-kept slot o =
    let waiting = processing_completed-kept slot.pending canceled o.0 in
    let processed = processing_completed-kept slot.context.message canceled o.1 in
    rw completions-++ (
      (waiting.0, processed.0),
      omega (arith, waiting.1, processed.1),
      omega (arith, waiting.2, processed.2),
    )

scan-kept :
    (clock : Clock) (http_status : ℕ) (infos : List RetryInfo) (ctx : Context)
    → owned ctx.message ≡ true
    → let r = scan clock http_status infos ctx in
      (owned r.0.message ≡ true) × (live r.0.message + completions r.1 ≡ live ctx.message)
unfolding scan give_up retry_later set_status_in
scan-kept clock http_status [] ctx o =
    let on = set_message_status-kept ctx.message in_progress in ground (arith, on, o)
scan-kept clock http_status (info ∷ infos) ctx o =
    let on = set_message_status-kept ctx.message in_progress in
    let off = processing_completed-kept ctx.message max_retries_reached o in
    let ih = scan-kept clock http_status infos ctx o in ground (arith, on, off, ih, o)

answered-kept :
    (responses : Responses) (clock : Clock) (http_status : ℕ) (ctx : Context)
    → owned ctx.message ≡ true
    → let r = answered responses clock http_status ctx in
      (owned r.0.message ≡ true) × (live r.0.message + completions r.1 ≡ live ctx.message)
unfolding answered settle succeed give_up set_status_in owned live completions
answered-kept responses clock http_status ctx0 o =
    let ctx : Context = record ctx0 {
      message = record (ctx0.message) { last_http_status = http_status };
    } in
    let left : Context = record ctx {
      next_retry_timestamp_epoch = (response responses http_status ctx).1;
    } in
    let on = set_message_status-kept ctx.message in_progress in
    let off = processing_completed-kept ctx.message max_retries_reached o in
    let done = processing_completed-kept ctx.message success o in
    let scanned = scan-kept clock http_status ctx.retry_strategy.http_status_retry_info left o in
    ground (arith, on, off, done, scanned, o)

pub answer_slot-kept :
    (responses : Responses) (clock : Clock) (http_status : ℕ) (slot : Slot)
    → IsOwned slot
    → let r = answer_slot responses clock http_status slot in
      IsOwned r.0 × (held r.0 + completions r.1 ≡ held slot)
unfolding answer_slot held IsOwned
answer_slot-kept responses clock http_status slot o =
    let a = answered-kept responses clock http_status slot.context o.1 in
    ((o.0, a.0), omega (arith, a.1))

pub set_transport_in-kept :
    (transport : Option Transport) (slot : Slot)
    → IsOwned slot
    → let r = set_transport_in transport slot in
      IsOwned r.0 × (held r.0 + completions r.1 ≡ held slot + 0)
unfolding set_transport_in held IsOwned completions
set_transport_in-kept transport slot o = (o, refl)

pub set_strategy_in-kept :
    (strategy : RetryStrategy) (slot : Slot)
    → IsOwned slot
    → let r = set_strategy_in strategy slot in
      IsOwned r.0 × (held r.0 + completions r.1 ≡ held slot + 0)
unfolding set_strategy_in held IsOwned completions
set_strategy_in-kept strategy slot o = (o, refl)

pub initial_slot-IsOwned : IsOwned initial_slot
unfolding initial_slot owned IsOwned
initial_slot-IsOwned = (refl, refl)
