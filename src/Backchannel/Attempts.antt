-- ===== src/Backchannel/Attempts.antt =====
-- internal/service/backchannel.go: which attempts of a callback are retried, and which end it well.
use zeroid.Prelude.{
  Bool-cases, ltb, ℕ, zero, suc, String, none, some, ◌≡◌, refl, sym, ◌≤◌, ◌<◌, arith, ◌⊎◌, inl, inr,
  Option-cases, leb, false, ◌&&◌, ◌∙◌,
}
use zeroid.Backchannel.Notify.{
  Reply, Callback, Outcome, pause, status_outcome, is_success, is_refusal, reply_outcome, outcome,
}

-- Attempt `k` is made, and no pause before it is cut off.
abbrev pub Made : Callback → ℕ → Type 0
Made c k = (k ≡ 0) ⊎ ((c.attempts k).cancelled ≡ none)

-- A reply after which the loop goes on: a network error, or a status that is neither a 2xx nor a 4xx.
pub data Passing : Reply → Type 0 where
  unreachable : {e : String} → Passing (Reply.network_error e)
  other_status :
      {status : ℕ}
      → (status < 200) ⊎ (300 ≤ status)
      → (status < 400) ⊎ (500 ≤ status)
      → Passing (Reply.http status)

-- A reply with a 2xx status.
pub data Accepting : Reply → Type 0 where
  accepted_status : {status : ℕ} → 200 ≤ status → status < 300 → Accepting (Reply.http status)

-- Attempt `k` is answered with a 2xx, and every attempt before it is retried.
pub record FirstAnswer (c : Callback) (k : ℕ) : Type 0 where
  pub made : Made c k
  pub answer : Accepting (c.attempts k).reply
  pub before : (j : ℕ) → j < k → Made c j × Passing (c.attempts j).reply

abbrev pub Retried : Callback → ℕ → Type 0
Retried c k = (e : String) × (outcome c k ≡ Outcome.retried e)

pub record Answered (c : Callback) (k : ℕ) : Type 0 where
  pub answer : outcome c k ≡ Outcome.answered
  pub before : (j : ℕ) → j < k → Retried c j

Pause-cases :
    (c : Callback) (k : ℕ)
    → (Made c k × (pause k (c.attempts k) ≡ none))
      ⊎ ((e : String) × (pause k (c.attempts k) ≡ some e) × ¬ Made c k)
unfolding pause
Pause-cases c zero = inl (inl refl, refl)
Pause-cases c (suc k) = elim (Option-cases (c.attempts (suc k)).cancelled) [
  | inl free ↦ inl (inr free, free)
  | inr (e, cut) ↦ inr (e, cut, λ m. elim m [ inl z ↦ absurd (omega arith) | inr free ↦ cc ])
]

-- The three ranges of a status.
status-ranges :
    (c : Callback) (status : ℕ)
    → ((200 ≤ status) × (status < 300) × (status_outcome c status ≡ Outcome.answered))
      ⊎ ((400 ≤ status)
          × (status < 500)
          × (status_outcome c status ≡ Outcome.refused (c.status_text status)))
      ⊎ (((status < 200) ⊎ (300 ≤ status))
          × ((status < 400) ⊎ (500 ≤ status))
          × (status_outcome c status ≡ Outcome.retried (c.status_text status)))
unfolding status_outcome
status-ranges c status = elim (Bool-cases (is_success status)) [
  | inl good ↦ inl (ground arith, ground arith, simp good refl)
  | inr poor ↦ elim (Bool-cases (is_refusal status)) [
    | inl bad ↦ inr (inl (ground arith, ground arith, simp (poor, bad) refl))
    | inr fine ↦
        inr (inr (outside status 200 300 poor, outside status 400 500 fine, simp (poor, fine) refl))
  ]
]
  where
    outside : (n low high : ℕ) → (leb low n && ltb n high) ≡ false → (n < low) ⊎ (high ≤ n)
    outside n low high h = elim (Bool-cases (leb low n)) [
      | inl above ↦ inr (ground arith)
      | inr below ↦ inl (ground arith)
    ]

status-Passing :
    (c : Callback) (status : ℕ) {e : String}
    → status_outcome c status ≡ Outcome.retried e
    → Passing (Reply.http status)
status-Passing c status h = elim (status-ranges c status) [
  | inl (low, high, o) ↦ cc
  | inr (inl (low, high, o)) ↦ cc
  | inr (inr (low, high, o)) ↦ other_status low high
]

status-Accepting :
    (c : Callback) (status : ℕ)
    → status_outcome c status ≡ Outcome.answered
    → Accepting (Reply.http status)
status-Accepting c status h = elim (status-ranges c status) [
  | inl (low, high, o) ↦ accepted_status low high
  | inr (inl (low, high, o)) ↦ cc
  | inr (inr (low, high, o)) ↦ cc
]

reply-Passing :
    (c : Callback) (r : Reply) {e : String} → reply_outcome c r ≡ Outcome.retried e → Passing r
unfolding reply_outcome
reply-Passing c (Reply.bad_request e) h = cc
reply-Passing c (Reply.network_error e) h = unreachable
reply-Passing c (Reply.http status) h = status-Passing c status h

reply-Accepting : (c : Callback) (r : Reply) → reply_outcome c r ≡ Outcome.answered → Accepting r
unfolding reply_outcome
reply-Accepting c (Reply.bad_request e) h = cc
reply-Accepting c (Reply.network_error e) h = cc
reply-Accepting c (Reply.http status) h = status-Accepting c status h

Passing-reply :
    (c : Callback) {r : Reply} → Passing r → (e : String) × (reply_outcome c r ≡ Outcome.retried e)
unfolding reply_outcome
Passing-reply c (unreachable {e}) = (e, refl)
Passing-reply c (other_status {status} low high) = elim (status-ranges c status) [
  | inl (l, h, o) ↦ absurd (omega arith)
  | inr (inl (l, h, o)) ↦ absurd (omega arith)
  | inr (inr (l, h, o)) ↦ (c.status_text status, o)
]

Accepting-reply : (c : Callback) {r : Reply} → Accepting r → reply_outcome c r ≡ Outcome.answered
unfolding reply_outcome
Accepting-reply c (accepted_status {status} low high) = elim (status-ranges c status) [
  | inl (l, h, o) ↦ o
  | inr (inl (l, h, o)) ↦ absurd (omega arith)
  | inr (inr (l, h, o)) ↦ absurd (omega arith)
]

outcome-free :
    (c : Callback) (k : ℕ)
    → pause k (c.attempts k) ≡ none
    → outcome c k ≡ reply_outcome c (c.attempts k).reply
unfolding outcome
outcome-free c k free = rw (free, outcome) refl

outcome-cut :
    (c : Callback) (k : ℕ) {e : String}
    → pause k (c.attempts k) ≡ some e
    → outcome c k ≡ Outcome.aborted e
unfolding outcome
outcome-cut c k cut = rw (cut, outcome) refl

outcome-Retried : (c : Callback) (k : ℕ) → Retried c k → Made c k × Passing (c.attempts k).reply
outcome-Retried c k (e, h) = elim (Pause-cases c k) [
  | inl (made, free) ↦
      (made, reply-Passing c (c.attempts k).reply (sym (outcome-free c k free) ∙ h))
  | inr (x, cut, n) ↦ let o = outcome-cut c k cut in cc
]

outcome-Answered :
    (c : Callback) (k : ℕ)
    → outcome c k ≡ Outcome.answered
    → Made c k × Accepting (c.attempts k).reply
outcome-Answered c k h = elim (Pause-cases c k) [
  | inl (made, free) ↦
      (made, reply-Accepting c (c.attempts k).reply (sym (outcome-free c k free) ∙ h))
  | inr (x, cut, n) ↦ let o = outcome-cut c k cut in cc
]

Retried-outcome : (c : Callback) (k : ℕ) → Made c k → Passing (c.attempts k).reply → Retried c k
Retried-outcome c k made p = elim (Pause-cases c k) [
  | inl (m, free) ↦ let (e, o) = Passing-reply c p in (e, outcome-free c k free ∙ o)
  | inr (x, cut, n) ↦ absurd (n made)
]

Answered-outcome :
    (c : Callback) (k : ℕ)
    → Made c k
    → Accepting (c.attempts k).reply
    → outcome c k ≡ Outcome.answered
Answered-outcome c k made a = elim (Pause-cases c k) [
  | inl (m, free) ↦ outcome-free c k free ∙ Accepting-reply c a
  | inr (x, cut, n) ↦ absurd (n made)
]

pub Answered-FirstAnswer : (c : Callback) (k : ℕ) → Answered c k → FirstAnswer c k
Answered-FirstAnswer c k a =
    let (made, answer) = outcome-Answered c k a.answer in
    record {
      made = made;
      answer = answer;
      before = λ j less. outcome-Retried c j (a.before j less);
    }

pub FirstAnswer-Answered : (c : Callback) (k : ℕ) → FirstAnswer c k → Answered c k
FirstAnswer-Answered c k f = record {
  answer = Answered-outcome c k f.made f.answer;
  before = λ j less. let (made, p) = f.before j less in Retried-outcome c j made p;
}
