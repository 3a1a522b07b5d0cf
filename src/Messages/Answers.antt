-- ===== src/Messages/Answers.antt =====
-- DefaultIoTHubSendReportedStateCompletedCallback of d2c_messaging.cpp: the answer of the hub to a
-- message.
use mbed_ce_client_for_azure.Base.{
  ℕ, ◌+◌, ◌%◌, ◌^◌, Bool, true, ◌&&◌, ◌||◌, not, none, some, List, [], ◌∷◌, leb, ltb, ◌==◌,
  if◌then◌else◌, is_some,
}
use mbed_ce_client_for_azure.Messages.{
  in_progress, success, max_retries_reached, MessageEvent, set_message_status, processing_completed,
}
use mbed_ce_client_for_azure.Messages.Strategy.{Clock, RetryInfo}
use mbed_ce_client_for_azure.Messages.Sending.{Context}

-- The response callbacks of the program: the answer, and the time of the next attempt that the
-- callback leaves in the context.
abbrev pub Responses : Type 0
Responses = ℕ → (http_status : ℕ) → Context → Bool × ℕ

-- SetMessageStatus and OnMessageProcessingCompleted on the context's message
unfoldable pub set_status_in : Context → Context × List MessageEvent
set_status_in ctx =
    let (m, events) = set_message_status ctx.message in_progress in
    (record ctx { message = m }, events)

unfoldable pub give_up : Context → Context × List MessageEvent
give_up ctx =
    let (m, events) = processing_completed ctx.message max_retries_reached in
    (record ctx { message = m }, events)

unfoldable pub succeed : Context → Context × List MessageEvent
succeed ctx =
    let (m, events) = processing_completed ctx.message success in
    (record ctx { message = m }, events)

unfoldable pub retry_later : Context → ℕ → Context × List MessageEvent
unfolding set_status_in
retry_later ctx t = set_status_in (record ctx { next_retry_timestamp_epoch = t })

-- The loop over the table, and the fallback behind it.
unfoldable pub scan :
    Clock → (http_status : ℕ) → List RetryInfo → Context → Context × List MessageEvent
unfolding retry_later give_up
scan clock http_status [] ctx =
    retry_later ctx (ctx.next_retry_timestamp_epoch + ctx.retry_strategy.fallback_wait_time_sec)
scan clock http_status (info ∷ infos) ctx =
    let rest = scan clock http_status infos ctx in
    if leb info.http_status_min http_status && leb http_status info.http_status_max
    then if leb info.max_retry ctx.retries
      then give_up ctx
      else elim info.retry_timestamp_calc_func [
        | none ↦ rest
        | some calc ↦
            let retries' = (ctx.retries + 1) % 2 ^ 32 in
            retry_later (record ctx { retries = retries' })
              (calc clock info.additional_delay_secs retries'
                ctx.retry_strategy.initial_delay_unit_ms ctx.retry_strategy.max_delay_secs
                ctx.retry_strategy.max_jitter_percent)
      ]
    else rest

-- What the response callback says, if there is one: whether to go on, and the time it leaves.
unfoldable pub response : Responses → ℕ → Context → Bool × ℕ
response responses http_status ctx = elim ctx.message.response_callback [
  | none ↦ (true, ctx.next_retry_timestamp_epoch)
  | some k ↦ responses k http_status ctx
]

-- What follows when the response callback says whether the message is `wanted` again and leaves the
-- time `next` in the context. The time that it is compared with is read behind the callback.
unfoldable pub settle :
    Clock → (http_status : ℕ) → Context → (wanted : Bool) (next : ℕ) → Context × List MessageEvent
unfolding succeed give_up scan set_status_in
settle clock http_status ctx wanted next =
    let left : Context = record ctx { next_retry_timestamp_epoch = next } in
    let previous = left.next_retry_timestamp_epoch in
    if not wanted || (leb 200 http_status && ltb http_status 300)
    then succeed left
    else if not (left.next_retry_timestamp_epoch == previous)
    then set_status_in left
    else if leb left.retry_strategy.max_retries left.retries
    then give_up left
    else scan clock http_status left.retry_strategy.http_status_retry_info left

unfoldable pub answered :
    Responses → Clock → (http_status : ℕ) → Context → Context × List MessageEvent
unfolding response settle
answered responses clock http_status ctx0 =
    let ctx : Context = record ctx0 {
      message = record (ctx0.message) { last_http_status = http_status };
    } in
    let (wanted, next) = response responses http_status ctx in
    if is_some ctx.message.content then settle clock http_status ctx wanted next else (ctx, [])
