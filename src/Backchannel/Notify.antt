-- ===== src/Backchannel/Notify.antt =====
-- The retries of a callback: `postCallback` and the loop of `dispatchPing` in internal/service/backchannel.go.
-- The network is a function of the attempt's number. Both loops are the same but for the texts.
use zeroid.Prelude.{
  ℕ, zero, suc, ◌/◌, ◌*◌, String, Bool, Option, none, some, ◌&&◌, if◌then◌else◌, ltb, leb,
}
use zeroid.Prelude.Int.{ℤ, pos, negsuc}

-- What `client.Do` or the construction of the request comes to.
pub data Reply : Type 0 where
  bad_request : String → Reply
  network_error : String → Reply
  http : ℕ → Reply

-- One attempt: whether the context ends during the pause before it, and the reply.
pub record Attempt : Type 0 where
  pub cancelled : Option String
  pub reply : Reply

-- One delivery: `running` is false after `Stop`, `marshals` tells whether the payload can be encoded,
-- `status_text` formats a refusal's status, and `recorded` tells whether the last update runs.
pub record Callback : Type 0 where
  pub running : Bool
  pub marshals : Bool
  pub max_retries : ℤ
  pub attempts : ℕ → Attempt
  pub status_text : ℕ → String
  pub recorded : Bool

-- How the loop ends: with `return` after a 2xx, or at `done` with `lastErr`.
pub data Ending : Type 0 where
  accepted : Ending
  gave_up : Option String → Ending

-- The ending, and the number of requests that were sent.
pub record Delivery : Type 0 where
  pub ending : Ending
  pub sent : ℕ

abbrev pub is_success : ℕ → Bool
is_success status = leb 200 status && ltb status 300

abbrev pub is_refusal : ℕ → Bool
is_refusal status = leb 400 status && ltb status 500

-- the passes of `for attempt := 0; attempt <= maxRetries; attempt++`
unfoldable pub passes : ℤ → ℕ
passes (pos n) = suc n
passes (negsuc n) = 0

-- the pause before an attempt, which the first one does not make
unfoldable pub pause : ℕ → Attempt → Option String
pause zero a = none
pause (suc k) a = a.cancelled

-- What one pass of the loop does: `return`, `goto done` before or after the request, or the next pass.
pub data Outcome : Type 0 where
  answered : Outcome
  aborted : String → Outcome
  refused : String → Outcome
  retried : String → Outcome

-- the response's status, by the tests of the source
unfoldable pub status_outcome : Callback → ℕ → Outcome
status_outcome c status =
    if is_success status
    then Outcome.answered
    else if is_refusal status
    then Outcome.refused (c.status_text status)
    else Outcome.retried (c.status_text status)

unfoldable pub reply_outcome : Callback → Reply → Outcome
reply_outcome c (Reply.bad_request e) = Outcome.aborted e
reply_outcome c (Reply.network_error e) = Outcome.retried e
reply_outcome c (Reply.http status) = status_outcome c status

unfoldable pub outcome : Callback → ℕ → Outcome
outcome c k = elim (pause k (c.attempts k)) [
  | some e ↦ Outcome.aborted e
  | none ↦ reply_outcome c (c.attempts k).reply
]

-- the end of attempt `k`, or the next pass
unfoldable pub after_pass : ℕ → (String → Delivery) → Outcome → Delivery
after_pass k next Outcome.answered = record { ending = Ending.accepted; sent = suc k }
after_pass k next (Outcome.aborted e) = record { ending = Ending.gave_up (some e); sent = k }
after_pass k next (Outcome.refused e) = record { ending = Ending.gave_up (some e); sent = suc k }
after_pass k next (Outcome.retried e) = next e

-- the loop from attempt `k`, with the passes that are left and `lastErr`
unfoldable pub attempt_loop : Callback → ℕ → ℕ → Option String → Delivery
attempt_loop c zero k last = record { ending = Ending.gave_up last; sent = k }
attempt_loop c (suc left) k last =
    after_pass k (λ e. attempt_loop c left (suc k) (some e)) (outcome c k)

unfoldable pub deliver_callback : Callback → Delivery
deliver_callback c = attempt_loop c (passes c.max_retries) 0 none

-- `jitterMillis` of the byte drawn
unfoldable pub jitter_millis : ℕ → ℕ
jitter_millis b = b * 250 / 255
