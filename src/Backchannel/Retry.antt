-- ===== src/Backchannel/Retry.antt =====
-- internal/service/backchannel.go: what the retries of a callback come to.
use mathlib.Core.Path.{subst}
use zeroid.Prelude.{
  Bool-cases, ltb, ltb→lt, ℕ, zero, suc, String, Option, none, some, ◌≡◌, refl, sym, ◌+◌, ◌≤◌, ◌<◌,
  arith, ◌↔◌, ◌⊎◌, inl, inr,
}
use zeroid.Prelude.Int.{ℤ, pos, negsuc}
use zeroid.Backchannel.Notify.{
  Callback, Ending, Outcome, passes, outcome, after_pass, attempt_loop, deliver_callback,
}
use zeroid.Backchannel.Attempts.{
  FirstAnswer, Retried, Answered, Answered-FirstAnswer, FirstAnswer-Answered,
}

-- The attempts that `PingMaxRetries` allows: those numbered from 0 to it, so none if it is negative.
abbrev pub Allowed : ℤ → ℕ → Type 0
Allowed (pos n) k = k ≤ n
Allowed (negsuc n) k = ⊥

-- The most requests that it allows: one more than it, none if it is negative.
abbrev pub most_sent : ℤ → ℕ
most_sent (pos n) = n + 1
most_sent (negsuc n) = 0

Outcome-cases :
    (o : Outcome)
    → (o ≡ Outcome.answered)
      ⊎ ((e : String) × (o ≡ Outcome.aborted e))
      ⊎ ((e : String) × (o ≡ Outcome.refused e))
      ⊎ ((e : String) × (o ≡ Outcome.retried e))
Outcome-cases Outcome.answered = inl refl
Outcome-cases (Outcome.aborted e) = inr (inl (e, refl))
Outcome-cases (Outcome.refused e) = inr (inr (inl (e, refl)))
Outcome-cases (Outcome.retried e) = inr (inr (inr (e, refl)))

-- The loop sends a request per pass at most.
loop-sent :
    (c : Callback) (left k : ℕ) (last : Option String)
    → (attempt_loop c left k last).sent ≤ k + left
unfolding attempt_loop after_pass
loop-sent c zero k last = omega arith
loop-sent c (suc left) k last = elim (Outcome-cases (outcome c k)) [
  | inl o ↦ rw o (omega arith)
  | inr (inl (e, o)) ↦ rw o (omega arith)
  | inr (inr (inl (e, o))) ↦ rw o (omega arith)
  | inr (inr (inr (e, o))) ↦ let rest = loop-sent c left (suc k) (some e) in rw o (omega arith)
]

extend :
    (c : Callback) (k : ℕ)
    → ((j : ℕ) → j < k → Retried c j)
    → Retried c k
    → (j : ℕ) → j < suc k
    → Retried c j
extend c k before here j h = elim (Bool-cases (ltb j k)) [
  | inl less ↦ before j (ltb→lt j k less)
  | inr last ↦ let same : k ≡ j = ground arith in subst (Retried c) same here
]

loop-accepted :
    (c : Callback) (left k : ℕ) (last : Option String)
    → ((j : ℕ) → j < k → Retried c j)
    → (attempt_loop c left k last).ending ≡ Ending.accepted
    → (n : ℕ) × ((attempt_loop c left k last).sent ≡ suc n) × (n < k + left) × Answered c n
unfolding attempt_loop after_pass
loop-accepted c zero k last before h = cc
loop-accepted c (suc left) k last before h = elim (Outcome-cases (outcome c k)) [
  | inl o ↦ (k, rw o refl, omega arith, record { answer = o; before = before })
  | inr (inl (e, o)) ↦ cc (rw o at h)
  | inr (inr (inl (e, o))) ↦ cc (rw o at h)
  | inr (inr (inr (e, o))) ↦
      let (n, sent, within, first) =
        loop-accepted c left (suc k) (some e) (extend c k before (e, o)) (rw o at h) in
      (n, rw o sent, omega arith, first)
]

loop-Answered :
    (c : Callback) (left k n : ℕ) (last : Option String)
    → Answered c n
    → k ≤ n
    → n < k + left
    → (attempt_loop c left k last).ending ≡ Ending.accepted
unfolding attempt_loop after_pass
loop-Answered c zero k n last first from within = absurd (omega arith)
loop-Answered c (suc left) k n last first from within = elim (Bool-cases (ltb k n)) [
  | inl less ↦
      let (e, o) = first.before k (ltb→lt k n less) in
      let lt = ltb→lt k n less in
      rw o (loop-Answered c left (suc k) n (some e) first (omega arith) (omega arith))
  | inr last ↦
      let same : k ≡ n = ground arith in
      let here : outcome c k ≡ Outcome.answered =
        subst (λ m. outcome c m ≡ Outcome.answered) (sym same) first.answer in
      rw here refl
]

most_sent-passes : (n : ℤ) → passes n ≡ most_sent n
unfolding passes
most_sent-passes (pos n) = omega arith
most_sent-passes (negsuc n) = refl

Allowed-iff : (n : ℤ) (k : ℕ) → k < passes n ↔ Allowed n k
unfolding passes
Allowed-iff (pos n) k = (λ h. omega arith, λ h. omega arith)
Allowed-iff (negsuc n) k = (λ h. omega arith, λ h. absurd h)

-- The retries of a callback end: `PingMaxRetries + 1` requests are sent at most, none if that number is not
-- positive. Delivery succeeds exactly if some attempt, numbered from 0 to `PingMaxRetries`, is answered with a
-- 2xx status and every attempt before it meets a network error or a status other than 2xx and 4xx, where no
-- pause before any of them is cut off.
pub deliver-attempts :
    (c : Callback)
    → ((deliver_callback c).sent ≤ most_sent c.max_retries)
      × ((deliver_callback c).ending ≡ Ending.accepted
          ↔ ((n : ℕ) × Allowed c.max_retries n × FirstAnswer c n))
unfolding deliver_callback
deliver-attempts c = (
  let most = loop-sent c (passes c.max_retries) 0 none in
      let same = most_sent-passes c.max_retries in omega arith,
  (
    λ h.
        let (n, sent, within, first) =
          loop-accepted c (passes c.max_retries) 0 none (λ j lt. absurd (omega arith)) h in
        (n, (Allowed-iff c.max_retries n).0 (omega arith), Answered-FirstAnswer c n first),
    λ (n, allowed, first).
        let within = (Allowed-iff c.max_retries n).1 allowed in
        loop-Answered c (passes c.max_retries) 0 n none (FirstAnswer-Answered c n first)
          (omega arith) (omega arith),
  ),
)
