-- ===== src/Messages/Contents.antt =====
-- d2c_messaging.cpp: the content of a message is kept or is gone.
use mbed_ce_client_for_azure.Base.{
  ℕ, ◌+◌, ◌%◌, ◌^◌, none, List, [], ◌∷◌, ◌≡◌, arith, Option-cases, ◌⊎◌, inl, inr,
}
use mbed_ce_client_for_azure.Messages.{
  Message, MessageStatus, set_message_status, processing_completed, waiting_for_response, failed,
  in_progress, success, max_retries_reached,
}
use mbed_ce_client_for_azure.Messages.Strategy.{Clock, RetryInfo}
use mbed_ce_client_for_azure.Messages.Answers.{
  Responses, set_status_in, give_up, succeed, retry_later, scan, settle, response, answered,
}
use mbed_ce_client_for_azure.Messages.Sending.{
  Transport, hub, custom, Context, Cloud, default_transport, run_transport, send,
}

-- A transport function of the program that leaves the content of a message or takes it.
unfoldable pub IsHonest : Cloud → Type 0
IsHonest cloud =
    (k : ℕ) (m : Message)
    → ((cloud.send_custom k m).0.content ≡ m.content) ⊎ ((cloud.send_custom k m).0.content ≡ none)

-- A message keeps its content or has lost it.
abbrev pub KeepsOrEnds : Message → Message → Type 0
KeepsOrEnds m m' = (m'.content ≡ m.content) ⊎ (m'.content ≡ none)

pub completed-content :
    (m : Message) (s : MessageStatus) → (processing_completed m s).0.content ≡ none
unfolding processing_completed set_message_status
completed-content m s = ground arith

pub status-content :
    (m : Message) (s : MessageStatus) → (set_message_status m s).0.content ≡ m.content
unfolding set_message_status
status-content m s = ground arith

default_transport-content :
    (cloud : Cloud) (m : Message) → KeepsOrEnds m (default_transport cloud m).0
unfolding default_transport
default_transport-content cloud m =
    ground (arith, status-content m waiting_for_response, completed-content m failed)

run_transport-content :
    (cloud : Cloud) (t : Transport) (m : Message)
    → IsHonest cloud
    → KeepsOrEnds m (run_transport cloud t m).0
unfolding run_transport IsHonest
run_transport-content cloud hub m honest = default_transport-content cloud m
run_transport-content cloud (custom k) m honest = honest k m

pub send-content :
    (cloud : Cloud) (ctx : Context)
    → IsHonest cloud
    → KeepsOrEnds ctx.message (send cloud ctx).0.message
unfolding send
send-content cloud ctx honest = elim (Option-cases ctx.transport_func) [
  | inl e ↦ inl (ground (arith, e))
  | inr (t, e) ↦
      let tried : Message = record (ctx.message) {
        attempts = (ctx.message.attempts + 1) % 2 ^ 32;
      } in
      let ran = run_transport-content cloud t tried honest in ground (arith, e, ran)
]

scan-content :
    (clock : Clock) (http_status : ℕ) (infos : List RetryInfo) (ctx : Context)
    → KeepsOrEnds ctx.message (scan clock http_status infos ctx).0.message
unfolding scan retry_later set_status_in give_up
scan-content clock http_status [] ctx = inl (status-content ctx.message in_progress)
scan-content clock http_status (info ∷ infos) ctx =
    let ih = scan-content clock http_status infos ctx in
    ground (
      arith,
      ih,
      status-content ctx.message in_progress,
      completed-content ctx.message max_retries_reached,
    )

pub answered-content :
    (responses : Responses) (clock : Clock) (http_status : ℕ) (ctx : Context)
    → KeepsOrEnds ctx.message (answered responses clock http_status ctx).0.message
unfolding answered settle succeed give_up set_status_in
answered-content responses clock http_status ctx =
    let ctx' : Context = record ctx {
      message = record (ctx.message) { last_http_status = http_status };
    } in
    let (wanted, next) = response responses http_status ctx' in
    let left : Context = record ctx' { next_retry_timestamp_epoch = next } in
    ground (
      arith,
      status-content left.message in_progress,
      completed-content left.message success,
      completed-content left.message max_retries_reached,
      scan-content clock http_status ctx.retry_strategy.http_status_retry_info left,
    )
