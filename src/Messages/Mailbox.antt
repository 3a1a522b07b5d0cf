-- ===== src/Messages/Mailbox.antt =====
-- d2c_messaging.cpp: what one message type promises, as a mailbox with two places for a text.
use mbed_ce_client_for_azure.Base.{
  ℕ, Bool, true, false, ◌&&◌, Option, none, some, List, [], ◌∷◌, Bytes, ◌≡◌, refl, ◌∙◌, arith,
  is_some, if◌then◌else◌, Option-cases, ◌⊎◌, inl, inr, leb,
}
use mbed_ce_client_for_azure.Messages.{
  MessageEvent, set_message_status, waiting_for_response, in_progress, canceled,
}
use mbed_ce_client_for_azure.Messages.Strategy.{Clock, RetryStrategy}
use mbed_ce_client_for_azure.Messages.Answers.{Responses}
use mbed_ce_client_for_azure.Messages.Store.{
  Request, initial_slot, queue, cancel_slot, answer_slot, set_transport_in, set_strategy_in,
}
use mbed_ce_client_for_azure.Messages.Sending.{
  Transport, Context, Slot, Cloud, take_pending, send_again, process_message, is_status,
}
use mbed_ce_client_for_azure.Messages.Contents.{
  IsHonest, KeepsOrEnds, completed-content, status-content, send-content, answered-content,
}

-- The text that is processed, and the one that waits to be.
pub record Mailbox : Type 0 where
  pub processed : Option Bytes
  pub waiting : Option Bytes

-- What a mailbox does, with the text that is put into it. A text that is put takes the place of the one
-- that waits. The text that waits is taken whole, and can end at once; the one that is processed can end.
pub data BoxStep (b : Mailbox) : Option Bytes → Mailbox → Type 0 where
  puts : (text : Bytes) → BoxStep b (some text) (record b { waiting = some text })
  takes :
      (text : Bytes)
      → b.waiting ≡ some text
      → BoxStep b none (record { processed = some text; waiting = none })
  takes_and_ends :
      (text : Bytes)
      → b.waiting ≡ some text
      → BoxStep b none (record { processed = none; waiting = none })
  ends : BoxStep b none (record b { processed = none })
  clears : BoxStep b none (record { processed = none; waiting = none })
  stays : BoxStep b none b

pub data BoxRun (b : Mailbox) : List Bytes → Mailbox → Type 0 where
  box_at_rest : BoxRun b [] b
  box_puts :
      {texts : List Bytes} {b' b'' : Mailbox} {text : Bytes}
      → BoxRun b texts b'
      → BoxStep b' (some text) b''
      → BoxRun b (text ∷ texts) b''
  box_goes_on :
      {texts : List Bytes} {b' b'' : Mailbox}
      → BoxRun b texts b'
      → BoxStep b' none b''
      → BoxRun b texts b''

abbrev pub mailbox : Slot → Mailbox
mailbox slot = record { processed = slot.context.message.content; waiting = slot.pending.content }

-- An operation on the messages of one type, with the text that is sent by it.
pub data SlotStep (slot : Slot) : Option Bytes → Slot → Type 0 where
  queues : (now : ℕ) (r : Request) → SlotStep slot (some r.text) (queue now r slot).0
  works_on : (cloud : Cloud) → IsHonest cloud → SlotStep slot none (process_message cloud slot).0
  is_answered :
      (responses : Responses) (clock : Clock) (http_status : ℕ)
      → SlotStep slot none (answer_slot responses clock http_status slot).0
  is_cancelled : SlotStep slot none (cancel_slot slot).0
  sets_transport : (t : Option Transport) → SlotStep slot none (set_transport_in t slot).0
  sets_strategy : (s : RetryStrategy) → SlotStep slot none (set_strategy_in s slot).0

pub data SlotRun (slot : Slot) : List Bytes → Slot → Type 0 where
  at_rest : SlotRun slot [] slot
  puts_next :
      {texts : List Bytes} {s s' : Slot} {text : Bytes}
      → SlotRun slot texts s
      → SlotStep s (some text) s'
      → SlotRun slot (text ∷ texts) s'
  goes_on :
      {texts : List Bytes} {s s' : Slot}
      → SlotRun slot texts s
      → SlotStep s none s'
      → SlotRun slot texts s'

-- A slot whose pending text is the same, and whose other text is the same or gone.
stays_or_ends :
    (slot slot' : Slot)
    → slot'.pending.content ≡ slot.pending.content
    → KeepsOrEnds slot.context.message slot'.context.message
    → BoxStep (mailbox slot) none (mailbox slot')
stays_or_ends slot slot' same (inl kept) = rw (same, kept) stays
stays_or_ends slot slot' same (inr gone) = rw (same, gone) ends

took :
    (slot slot' : Slot) (text : Bytes)
    → slot.pending.content ≡ some text
    → slot'.pending.content ≡ none
    → (slot'.context.message.content ≡ some text) ⊎ (slot'.context.message.content ≡ none)
    → BoxStep (mailbox slot) none (mailbox slot')
took slot slot' text held empty (inl kept) = rw (empty, kept) (takes text held)
took slot slot' text held empty (inr gone) = rw (empty, gone) (takes_and_ends text held)

-- Whichever branch is taken, the mailbox makes a step.
either :
    (m : Mailbox) (b : Bool) (x y : Slot × List MessageEvent)
    → BoxStep m none (mailbox x.0)
    → BoxStep m none (mailbox y.0)
    → BoxStep m none (mailbox (if b then x else y).0)
either m true x y left right = left
either m false x y left right = right

take_pending-box :
    (cloud : Cloud) (slot : Slot) (text : Bytes)
    → IsHonest cloud
    → slot.pending.content ≡ some text
    → BoxStep (mailbox slot) none (mailbox (take_pending cloud slot).0)
unfolding take_pending
take_pending-box cloud slot text honest held =
    let m = (set_message_status (record (slot.pending) { attempts = 0 }) in_progress).0 in
    let ctx : Context = record (slot.context) {
      message = m;
      retries = 0;
      next_retry_timestamp_epoch = cloud.now;
    } in
    let same : m.content ≡ some text =
      status-content (record (slot.pending) { attempts = 0 }) in_progress ∙ held in
    took slot (take_pending cloud slot).0 text held refl
      (elim (send-content cloud ctx honest) [ inl kept ↦ inl (kept ∙ same) | inr gone ↦ inr gone ])

-- The two cases of the work.
with_pending :
    (cloud : Cloud) (slot : Slot) (text : Bytes)
    → slot.pending.content ≡ some text
    → process_message cloud slot ≡ (
        if is_some slot.context.message.content
          && is_status slot.context.message.status waiting_for_response
        then (slot, [])
        else take_pending cloud slot)
unfolding process_message
with_pending cloud slot text held = ground (arith, held)

without_pending :
    (cloud : Cloud) (slot : Slot)
    → slot.pending.content ≡ none
    → process_message cloud slot ≡ (
        if is_some slot.context.message.content
          && is_status slot.context.message.status in_progress
          && leb slot.context.next_retry_timestamp_epoch cloud.now
        then send_again cloud slot
        else (slot, []))
unfolding process_message
without_pending cloud slot empty = ground (arith, empty)

works-box :
    (cloud : Cloud) (slot : Slot)
    → IsHonest cloud
    → BoxStep (mailbox slot) none (mailbox (process_message cloud slot).0)
unfolding send_again
works-box cloud slot honest = elim (Option-cases slot.pending.content) [
  | inr (text, held) ↦
      let taken = take_pending-box cloud slot text honest held in
      let waits =
        is_some slot.context.message.content
        && is_status slot.context.message.status waiting_for_response in
      rw (with_pending cloud slot text held)
        (either (mailbox slot) waits (slot, []) (take_pending cloud slot) stays taken)
  | inl empty ↦
      let again =
        stays_or_ends slot (send_again cloud slot).0 refl
          (send-content cloud slot.context honest) in
      rw (without_pending cloud slot empty)
        (either (mailbox slot) _ (send_again cloud slot) (slot, []) again stays)
]

step_refines :
    {slot slot' : Slot} {text : Option Bytes}
    → SlotStep slot text slot'
    → BoxStep (mailbox slot) text (mailbox slot')
unfolding queue answer_slot cancel_slot set_transport_in set_strategy_in
step_refines {slot} (queues now r) = rw (status-content _ _) (puts r.text)
step_refines {slot} (works_on cloud honest) = works-box cloud slot honest
step_refines {slot} (is_answered responses clock http_status) =
    stays_or_ends slot (answer_slot responses clock http_status slot).0 refl
      (answered-content responses clock http_status slot.context)
step_refines {slot} is_cancelled =
    rw (completed-content slot.pending canceled, completed-content slot.context.message canceled)
      clears
step_refines (sets_transport t) = stays
step_refines (sets_strategy s) = stays

-- What is done with the messages of one type is what is done with a mailbox, where the transport
-- functions of the program leave the content of a message or take it.
pub slot_refines :
    {slot slot' : Slot} {texts : List Bytes}
    → SlotRun slot texts slot'
    → BoxRun (mailbox slot) texts (mailbox slot')
slot_refines at_rest = box_at_rest
slot_refines (puts_next run step) = box_puts (slot_refines run) (step_refines step)
slot_refines (goes_on run step) = box_goes_on (slot_refines run) (step_refines step)

pub data IsAmong (text : Bytes) : List Bytes → Type 0 where
  last : {texts : List Bytes} → IsAmong text (text ∷ texts)
  earlier : {texts : List Bytes} {other : Bytes} → IsAmong text texts → IsAmong text (other ∷ texts)

-- What a mailbox holds has been put into it.
abbrev IsFilledFrom : List Bytes → Mailbox → Type 0
IsFilledFrom texts b =
    ((text : Bytes) → b.processed ≡ some text → IsAmong text texts)
    × ((text : Bytes) → b.waiting ≡ some text → IsAmong text texts)

filled_goes_on :
    {texts : List Bytes} {b b' : Mailbox}
    → IsFilledFrom texts b
    → BoxStep b none b'
    → IsFilledFrom texts b'
filled_goes_on f (takes text held) = ((λ other e. f.1 other (held ∙ e)), λ other e. absurd (cc))
filled_goes_on f (takes_and_ends text held) = ((λ other e. absurd (cc)), λ other e. absurd (cc))
filled_goes_on f ends = ((λ other e. absurd (cc)), f.1)
filled_goes_on f clears = ((λ other e. absurd (cc)), λ other e. absurd (cc))
filled_goes_on f stays = f

some_inj : (a b : Bytes) → some a ≡ some b → a ≡ b
some_inj a b e = cc

filled_puts :
    {texts : List Bytes} {b b' : Mailbox} {text : Bytes}
    → IsFilledFrom texts b
    → BoxStep b (some text) b'
    → IsFilledFrom (text ∷ texts) b'
filled_puts {texts} f (puts text) =
    ((λ other e. earlier (f.0 other e)), λ other e. rw (← some_inj text other e) last)

run_filled :
    {b : Mailbox} {texts : List Bytes} {b' : Mailbox}
    → IsFilledFrom [] b
    → BoxRun b texts b'
    → IsFilledFrom texts b'
run_filled f box_at_rest = f
run_filled f (box_puts run step) = filled_puts (run_filled f run) step
run_filled f (box_goes_on run step) = filled_goes_on (run_filled f run) step

-- From the initialisation on, the text of a type's message that is processed, or that is pending, is one
-- of the texts that were queued, where the transport functions of the program leave the content of a message
-- or take it.
pub only_queued :
    {slot : Slot} {texts : List Bytes}
    → SlotRun initial_slot texts slot
    → ((text : Bytes) → slot.context.message.content ≡ some text → IsAmong text texts)
      × ((text : Bytes) → slot.pending.content ≡ some text → IsAmong text texts)
unfolding initial_slot
only_queued run = run_filled ((λ text e. absurd (cc)), λ text e. absurd (cc)) (slot_refines run)
