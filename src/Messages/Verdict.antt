-- ===== src/Messages/Verdict.antt =====
-- d2c_messaging.cpp: what the default retry strategy makes of each status code of the hub.
use mbed_ce_client_for_azure.Base.{
  ℕ, ◌+◌, ◌≤◌, ◌<◌, ◌≡◌, sym, ap, ◌∙◌, Bool-cases, is_some, ==_refl, inl, inr, false, true, Bool,
  ◌∷◌, ◌%◌, ◌^◌, ◌&&◌, ◌||◌, refl, arith, none, some, List, leb, ltb, ◌==◌, if◌then◌else◌, Bytes,
}
use mbed_ce_client_for_azure.Retry.{retry_delay_calculator}
use mbed_ce_client_for_azure.Messages.{MessageEvent}
use mbed_ce_client_for_azure.Messages.Strategy.{
  Clock, RetryInfo, int_max, default_retry_strategy, default_http_status_retry_info,
  delay_calculator,
}
use mbed_ce_client_for_azure.Messages.Sending.{Context}
use mbed_ce_client_for_azure.Messages.Answers.{
  Responses, succeed, give_up, retry_later, scan, response, settle, answered,
}

-- What a status code means, apart from the table: the message has arrived, it is given up, or it is
-- sent again, with a delay of so many seconds in addition.
pub data Meaning : Type 0 where
  arrived refused : Meaning
  again : ℕ → Meaning

unfoldable pub meaning : (http_status : ℕ) → Meaning
meaning s =
    if leb 200 s && leb s 299
    then arrived
    else if s == 400 || s == 413
    then refused
    else if s == 429 || (leb 500 s && leb s 599)
    then again 30
    else if leb 400 s && leb s 499
    then again 5
    else again 0

unfoldable pub by_meaning : Meaning → Clock → Context → Context × List MessageEvent
by_meaning arrived clock ctx = succeed ctx
by_meaning refused clock ctx = give_up ctx
by_meaning (again additional) clock ctx =
    retry_later (record ctx { retries = ctx.retries + 1 })
      (retry_delay_calculator clock.now clock.rand clock.rand_max additional (ctx.retries + 1) 1000
        86400 5)

leb_zero : (n : ℕ) → leb 0 n ≡ true
leb_zero n = ground arith

abbrev within : RetryInfo → ℕ → Bool
within info s = leb info.http_status_min s && leb s info.http_status_max

skip :
    (clock : Clock) (s : ℕ) (info : RetryInfo) (infos : List RetryInfo) (ctx : Context)
    → within info s ≡ false
    → scan clock s (info ∷ infos) ctx ≡ scan clock s infos ctx
unfolding scan
skip clock s info infos ctx out = rw out refl

stop :
    (clock : Clock) (s : ℕ) (info : RetryInfo) (infos : List RetryInfo) (ctx : Context)
    → within info s ≡ true
    → info.max_retry ≡ 0
    → scan clock s (info ∷ infos) ctx ≡ give_up ctx
unfolding scan
stop clock s info infos ctx inside zero_retries =
    rw (inside, zero_retries, leb_zero ctx.retries) refl

hit :
    (clock : Clock) (s : ℕ) (info : RetryInfo) (infos : List RetryInfo) (ctx : Context)
    → ctx.retry_strategy ≡ default_retry_strategy
    → ctx.retries < int_max
    → within info s ≡ true
    → info.max_retry ≡ int_max
    → info.retry_timestamp_calc_func ≡ some delay_calculator
    → scan clock s (info ∷ infos) ctx ≡ by_meaning (again info.additional_delay_secs) clock ctx
unfolding scan by_meaning default_retry_strategy delay_calculator
hit clock s info infos ctx strategy few inside most calc =
    let left : leb int_max ctx.retries ≡ false = ground arith in
    let wraps : (ctx.retries + 1) % 2 ^ 32 ≡ ctx.retries + 1 = omega arith in
    rw (inside, most, left, calc, wraps)
      (ap
        (λ r.
          retry_later (record ctx { retries = ctx.retries + 1 })
            (retry_delay_calculator clock.now clock.rand clock.rand_max info.additional_delay_secs
              (ctx.retries + 1) r.initial_delay_unit_ms r.max_delay_secs r.max_jitter_percent))
        strategy)

scan_default :
    (clock : Clock) (s : ℕ) (ctx : Context)
    → ctx.retry_strategy ≡ default_retry_strategy
    → ctx.retries < int_max
    → s ≤ int_max
    → (leb 200 s && leb s 299) ≡ false
    → scan clock s default_http_status_retry_info ctx ≡ by_meaning (meaning s) clock ctx
unfolding default_http_status_retry_info by_meaning meaning
scan_default clock s ctx strategy few int other =
    let means : (m : Meaning)
        → meaning s ≡ m
        → by_meaning m clock ctx ≡ by_meaning (meaning s) clock ctx =
      λ m e. ap (λ x. by_meaning x clock ctx) (sym e) in
    skip clock s _ _ ctx other ∙ elim (Bool-cases (leb 400 s && leb s 400)) [
      | inl on ↦ stop clock s _ _ ctx on refl ∙ means refused (ground arith)
      | inr not_400 ↦ skip clock s _ _ ctx not_400 ∙ elim (Bool-cases (leb 429 s && leb s 429)) [
        | inl on ↦ hit clock s _ _ ctx strategy few on refl refl ∙ means (again 30) (ground arith)
        | inr not_429 ↦ skip clock s _ _ ctx not_429 ∙ elim (Bool-cases (leb 413 s && leb s 413)) [
          | inl on ↦ stop clock s _ _ ctx on refl ∙ means refused (ground arith)
          | inr not_413 ↦
              skip clock s _ _ ctx not_413 ∙ elim (Bool-cases (leb 400 s && leb s 499)) [
                | inl on ↦
                    hit clock s _ _ ctx strategy few on refl refl ∙ means (again 5) (ground arith)
                | inr not_4xx ↦
                    skip clock s _ _ ctx not_4xx ∙ elim (Bool-cases (leb 503 s && leb s 503)) [
                      | inl on ↦
                          hit clock s _ _ ctx strategy few on refl refl
                          ∙ means (again 30) (ground arith)
                      | inr not_503 ↦
                          skip clock s _ _ ctx not_503
                          ∙ elim (Bool-cases (leb 500 s && leb s 599)) [
                            | inl on ↦
                                hit clock s _ _ ctx strategy few on refl refl
                                ∙ means (again 30) (ground arith)
                            | inr not_5xx ↦
                                skip clock s _ _ ctx not_5xx
                                ∙ hit clock s _ _ ctx strategy few (ground arith) refl refl
                                ∙ means (again 0) (ground arith)
                          ]
                    ]
              ]
        ]
      ]
    ]

no_callback :
    (responses : Responses) (s : ℕ) (ctx : Context)
    → ctx.message.response_callback ≡ none
    → response responses s ctx ≡ (true, ctx.next_retry_timestamp_epoch)
unfolding response
no_callback responses s ctx silent = rw silent refl

settled :
    (clock : Clock) (s : ℕ) (ctx : Context)
    → ctx.retry_strategy ≡ default_retry_strategy
    → ctx.retries < int_max
    → s ≤ int_max
    → settle clock s ctx true ctx.next_retry_timestamp_epoch ≡ by_meaning (meaning s) clock ctx
unfolding settle default_retry_strategy meaning by_meaning
settled clock s ctx strategy few int = elim (Bool-cases (leb 200 s && leb s 299)) [
  | inl on ↦ let ok : (leb 200 s && ltb s 300) ≡ true = ground arith in rw (ok, on) refl
  | inr other ↦
      let bad : (leb 200 s && ltb s 300) ≡ false = ground arith in
      let left : leb ctx.retry_strategy.max_retries ctx.retries ≡ false =
        rw strategy (ground arith) in
      rw (bad, ==_refl ctx.next_retry_timestamp_epoch, left)
        (ap (λ r. scan clock s r.http_status_retry_info ctx) strategy
          ∙ scan_default clock s ctx strategy few int other)
]

-- For a message that is held and has no response callback, under the default strategy and with fewer
-- than INT_MAX retries, a status code up to INT_MAX is handled by its meaning: from 200 to 299 the
-- message is completed with success, at 400 and 413 it is given up, and at any other code it is
-- sent again, at the time that the retry delay gives for one retry more: with 30 seconds in addition
-- at 429 and from 500 to 599, with 5 at the rest of 400 to 499, and with none elsewhere.
pub answered-by_meaning :
    (responses : Responses) (clock : Clock) (s : ℕ) (ctx : Context) (text : Bytes)
    → ctx.message.content ≡ some text
    → ctx.message.response_callback ≡ none
    → ctx.retry_strategy ≡ default_retry_strategy
    → ctx.retries < int_max
    → s ≤ int_max
    → answered responses clock s ctx
      ≡ by_meaning
          (meaning s)
          clock
          (record ctx { message = record (ctx.message) { last_http_status = s } })
unfolding answered
answered-by_meaning responses clock s ctx text held silent strategy few int =
    let noted : Context = record ctx { message = record (ctx.message) { last_http_status = s } } in
    let there : is_some ctx.message.content ≡ true = ap is_some held in
    rw (there, no_callback responses s noted silent) (settled clock s noted strategy few int)
