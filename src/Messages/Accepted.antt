-- ===== src/Messages/Accepted.antt =====
-- d2c_messaging.cpp: over any run, the messages that are accepted are the ones that are completed and
-- the ones that are still held.
use mbed_ce_client_for_azure.Base.{
  ℕ, zero, suc, ◌+◌, ◌<◌, Bool, true, false, Option, none, some, List, [], ◌∷◌, ◌++◌, length, ◌≡◌,
  refl, arith, is_some,
}
use mbed_ce_client_for_azure.Messages.{MessageEvent}
use mbed_ce_client_for_azure.Messages.Strategy.{Clock, RetryStrategy}
use mbed_ce_client_for_azure.Messages.Sending.{Transport, Slot, Cloud, process_message}
use mbed_ce_client_for_azure.Messages.Answers.{Responses}
use mbed_ce_client_for_azure.Messages.Store.{
  Messaging, Request, initial_slot, messaging_init, messaging_do_work, messaging_uninit, send_async,
  answer, messaging_set_transport, messaging_set_retry_strategy, for_each, at_type, queue,
  cancel_slot, answer_slot, set_transport_in, set_strategy_in,
}
use mbed_ce_client_for_azure.Messages.Conserved.{
  IsFair, IsOwned, held, live, completions, completions-++, process_message-kept, queue-kept,
  initial_slot-IsOwned, cancel_slot-kept, answer_slot-kept, set_transport_in-kept,
  set_strategy_in-kept,
}

unfoldable pub all_held : List Slot → ℕ
all_held [] = 0
all_held (slot ∷ slots) = held slot + all_held slots

-- The messages of all the types have their callbacks.
pub data IsAllOwned : List Slot → Type 0 where
  none_left : IsAllOwned []
  also :
      {slot : Slot} {slots : List Slot}
      → IsOwned slot
      → IsAllOwned slots
      → IsAllOwned (slot ∷ slots)

-- An operation on a slot that accepts `d` messages.
IsKeeping : ℕ → (Slot → Slot × List MessageEvent) → Type 0
IsKeeping d f =
    (slot : Slot)
    → IsOwned slot
    → IsOwned (f slot).0 × (held (f slot).0 + completions (f slot).1 ≡ held slot + d)

for_each-kept :
    (f : Slot → Slot × List MessageEvent) (slots : List Slot)
    → IsKeeping 0 f
    → IsAllOwned slots
    → let r = for_each f slots in IsAllOwned r.0 × (all_held r.0 + completions r.1 ≡ all_held slots)
unfolding for_each all_held completions IsKeeping
for_each-kept f [] keeps none_left = (none_left, refl)
for_each-kept f (slot ∷ slots) keeps (also o os) =
    let one = keeps slot o in
    let ih = for_each-kept f slots keeps os in
    rw completions-++ (also one.0 ih.0, omega (arith, one.1, ih.1))

at_type-kept :
    (d t : ℕ) (f : Slot → Slot × List MessageEvent) (slots : List Slot)
    → IsKeeping d f
    → t < length slots
    → IsAllOwned slots
    → let r = at_type t f slots in
      IsAllOwned r.0 × (all_held r.0 + completions r.1 ≡ all_held slots + d)
unfolding at_type all_held completions IsKeeping
at_type-kept d t f [] keeps h os = absurd (omega (arith, h))
at_type-kept d zero f (slot ∷ slots) keeps h (also o os) =
    let one = keeps slot o in (also one.0 os, omega (arith, one.1))
at_type-kept d (suc t) f (slot ∷ slots) keeps h (also o os) =
    let ih = at_type-kept d t f slots keeps (omega (arith, h)) os in
    (also o ih.0, omega (arith, ih.1))

at_type-kept_any :
    (t : ℕ) (f : Slot → Slot × List MessageEvent) (slots : List Slot)
    → IsKeeping 0 f
    → IsAllOwned slots
    → let r = at_type t f slots in
      IsAllOwned r.0 × (all_held r.0 + completions r.1 ≡ all_held slots)
unfolding at_type all_held completions IsKeeping
at_type-kept_any t f [] keeps os = (os, refl)
at_type-kept_any zero f (slot ∷ slots) keeps (also o os) =
    let one = keeps slot o in (also one.0 os, omega (arith, one.1))
at_type-kept_any (suc t) f (slot ∷ slots) keeps (also o os) =
    let ih = at_type-kept_any t f slots keeps os in (also o ih.0, omega (arith, ih.1))

cancelled_all :
    (slots : List Slot)
    → IsAllOwned slots
    → let r = for_each cancel_slot slots in (all_held r.0 ≡ 0) × (completions r.1 ≡ all_held slots)
unfolding for_each all_held completions
cancelled_all [] none_left = (refl, refl)
cancelled_all (slot ∷ slots) (also o os) =
    let one = cancel_slot-kept slot o in
    let ih = cancelled_all slots os in
    rw completions-++ (omega (arith, one.1, ih.0), omega (arith, one.2, ih.1))

-- One call into the file, with the number of messages that it accepts and what it reports.
pub data Step (g : Messaging) : ℕ → List MessageEvent → Messaging → Type 0 where
  works :
      (cloud : Cloud)
      → IsFair cloud
      → Step g 0 (messaging_do_work cloud g).1 (messaging_do_work cloud g).0
  accepts :
      (now t : ℕ) (r : Request)
      → t < length g.slots
      → is_some r.on_completed ≡ true
      → Step g 1 (send_async now true t (some r) g).2 (send_async now true t (some r) g).0
  refuses :
      (now : ℕ) (allocated : Bool) (t : ℕ) (q : Option Request)
      → (send_async now allocated t q g).1 ≡ false
      → Step g 0 (send_async now allocated t q g).2 (send_async now allocated t q g).0
  answers :
      (responses : Responses) (clock : Clock) (t http_status : ℕ)
      → Step g 0
          (answer responses clock t http_status g).1
          (answer responses clock t http_status g).0
  sets_transport :
      (t : ℕ) (transport : Option Transport) → Step g 0 [] (messaging_set_transport t transport g)
  sets_strategy :
      (t : ℕ) (strategy : RetryStrategy) → Step g 0 [] (messaging_set_retry_strategy t strategy g)

pub data Reached (g : Messaging) : ℕ → List MessageEvent → Messaging → Type 0 where
  here : Reached g 0 [] g
  next :
      {n a : ℕ} {events events' : List MessageEvent} {g' g'' : Messaging}
      → Reached g n events g'
      → Step g' a events' g''
      → Reached g (n + a) (events ++ events') g''

-- What a run keeps, where `n` messages have been accepted.
record IsBalanced (n : ℕ) (events : List MessageEvent) (g : Messaging) : Type 0 where
  ready : g.core_initialized ≡ true
  with_callbacks : IsAllOwned g.slots
  balance : all_held g.slots + completions events ≡ n

refused :
    (now : ℕ) (allocated : Bool) (t : ℕ) (q : Option Request) (g : Messaging)
    → (send_async now allocated t q g).1 ≡ false
    → send_async now allocated t q g ≡ (g, false, [])
unfolding send_async
refused now allocated t none g negative = refl
refused now false t (some r) g negative = refl
refused now true t (some r) g negative = ground arith

unchanged :
    (t : ℕ) (f : Slot → Slot × List MessageEvent) (slots : List Slot)
    → ((slot : Slot) → (f slot).1 ≡ [])
    → (at_type t f slots).1 ≡ []
unfolding at_type
unchanged t f [] e = refl
unchanged zero f (slot ∷ slots) e = e slot
unchanged (suc t) f (slot ∷ slots) e = unchanged t f slots e

Step-kept :
    {g : Messaging} {a : ℕ} {events : List MessageEvent} {g' : Messaging}
    → g.core_initialized ≡ true
    → IsAllOwned g.slots
    → Step g a events g'
    → (g'.core_initialized ≡ true)
      × IsAllOwned g'.slots
      × (all_held g'.slots + completions events ≡ all_held g.slots + a)
unfolding messaging_do_work send_async answer messaging_set_transport messaging_set_retry_strategy
    completions IsKeeping set_transport_in set_strategy_in
Step-kept {g} r os (works cloud fair) =
    let k =
      for_each-kept (process_message cloud) g.slots
        (λ slot o. let s = process_message-kept cloud slot fair o in (s.0, omega (arith, s.1)))
        os in
    (r, k.0, omega (arith, k.1))
Step-kept {g} r os (accepts now t q h own) =
    let k = at_type-kept 1 t (queue now q) g.slots (λ slot o. queue-kept now q slot own o) h os in
    (r, k.0, k.1)
Step-kept {g} r os (refuses now allocated t q negative) =
    rw (refused now allocated t q g negative) (r, os, omega arith)
Step-kept {g} r os (answers responses clock t http_status) =
    let k =
      at_type-kept_any t (answer_slot responses clock http_status) g.slots
        (λ slot o.
          let s = answer_slot-kept responses clock http_status slot o in (s.0, omega (arith, s.1)))
        os in
    (r, k.0, omega (arith, k.1))
Step-kept {g} r os (sets_transport t transport) =
    let k =
      at_type-kept_any t (set_transport_in transport) g.slots (set_transport_in-kept transport)
        os in
    let e = unchanged t (set_transport_in transport) g.slots (λ slot. refl) in
    let kept = rw e at k.1 in (r, k.0, omega (arith, kept))
Step-kept {g} r os (sets_strategy t strategy) =
    let k =
      at_type-kept_any t (set_strategy_in strategy) g.slots (set_strategy_in-kept strategy) os in
    let e = unchanged t (set_strategy_in strategy) g.slots (λ slot. refl) in
    let kept = rw e at k.1 in (r, k.0, omega (arith, kept))

Reached-IsBalanced :
    {g : Messaging} {n : ℕ} {events : List MessageEvent} {g' : Messaging}
    → IsBalanced 0 [] g
    → Reached g n events g'
    → IsBalanced n events g'
Reached-IsBalanced start here = start
Reached-IsBalanced start (next {events = before} {events' = last} path step) =
    let b = Reached-IsBalanced start path in
    let k = Step-kept b.ready b.with_callbacks step in
    record {
      ready = k.0;
      with_callbacks = k.1;
      balance = rw (completions-++ before last) (omega (arith, b.balance, k.2));
    }

initial-IsBalanced :
    (g : Messaging) → g.core_initialized ≡ false → IsBalanced 0 [] (messaging_init g).0
unfolding messaging_init all_held completions held initial_slot live
initial-IsBalanced g fresh =
    let o = initial_slot-IsOwned in
    rw fresh (record {
      ready = refl;
      with_callbacks = also o (also o (also o (also o (also o (also o none_left)))));
      balance = refl;
    })

-- From the initialisation on, over any run of the work, of requests to send (all those that are
-- accepted have a callback for their completion and one of the types), of answers of the hub and of
-- changes of the transport and the strategy, where a transport that the program supplies reports a
-- completion exactly when it takes the message's content: the completions reported and the messages
-- held are together the messages accepted. When the messaging is then shut down nothing is held, and as
-- many completions have been reported as messages were accepted.
pub completed_once :
    (g₀ : Messaging) {n : ℕ} {events : List MessageEvent} {g : Messaging}
    → g₀.core_initialized ≡ false
    → Reached (messaging_init g₀).0 n events g
    → let q = messaging_uninit g in
      (all_held g.slots + completions events ≡ n)
      × (all_held q.0.slots ≡ 0)
      × (completions (events ++ q.1) ≡ n)
unfolding messaging_uninit
completed_once g₀ {events} {g} fresh path =
    let b = Reached-IsBalanced (initial-IsBalanced g₀ fresh) path in
    let c = cancelled_all g.slots b.with_callbacks in
    rw b.ready (b.balance, c.0, rw (completions-++ events) (omega (arith, b.balance, c.1)))
