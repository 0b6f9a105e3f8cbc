-- ===== src/Backchannel/Moves.antt =====
-- internal/store/postgres/backchannel_request.go: what the statements of a call may do to a request.
use mathlib.Core.Path.{subst}
use mathlib.Core.Bool.{and-eq-true_iff}
use zeroid.Prelude.{
  ◌≡◌, refl, sym, ◌∙◌, String, Bool, true, ◌==◌, ◌⊎◌, inl, inr, Bool-cases, eq_iff, ℕ, [], ◌∷◌,
}
use zeroid.Prelude.Table.{Pointwise, empty, both, update_where, update_where-Pointwise}
use zeroid.Backchannel.Defs.{
  BackchannelStatus, is_pending, is_approved, BackchannelAuthRequest, Requests,
}
use zeroid.Backchannel.Store.{
  open_at, approved_as, set_approved, set_denied, set_issued, set_polled, set_error, mark_approved,
  mark_denied, mark_issued, touch_poll, set_last_notify_error,
}

-- The three calls that change a stored request.
pub data CallKind : Type 0 where
  redeeming approving denying : CallKind

-- The changes of a status that a call may make. An approval that delivers by push issues in the same call.
pub data Move : CallKind → BackchannelStatus → BackchannelStatus → Type 0 where
  stays : {k : CallKind} {s : BackchannelStatus} → Move k s s
  accepts : Move approving BackchannelStatus.pending BackchannelStatus.approved
  rejects : Move denying BackchannelStatus.pending BackchannelStatus.denied
  redeems : Move redeeming BackchannelStatus.approved BackchannelStatus.issued
  pushes : Move approving BackchannelStatus.approved BackchannelStatus.issued
  delivers : Move approving BackchannelStatus.pending BackchannelStatus.issued

Move-trans : {k : CallKind} {a b c : BackchannelStatus} → Move k a b → Move k b c → Move k a c
Move-trans stays n = n
Move-trans accepts stays = accepts
Move-trans accepts pushes = delivers
Move-trans rejects stays = rejects
Move-trans redeems stays = redeems
Move-trans pushes stays = pushes
Move-trans delivers stays = delivers

-- What a call for the request `id` may do to a row: nothing to a row of another identifier, and to one of its own
-- a change of the status that it may make.
pub record Changed (k : CallKind) (id : String) (r r' : BackchannelAuthRequest) : Type 0 where
  pub same_id : r'.auth_req_id ≡ r.auth_req_id
  pub own : (r.auth_req_id ≡ id) ⊎ (r' ≡ r)
  pub move : Move k r.status r'.status

Changed-refl : (k : CallKind) (id : String) (r : BackchannelAuthRequest) → Changed k id r r
Changed-refl k id r = record { same_id = refl; own = inr refl; move = stays }

Changed-trans :
    {k : CallKind} {id : String} {a b c : BackchannelAuthRequest}
    → Changed k id a b
    → Changed k id b c
    → Changed k id a c
Changed-trans f g = record {
  same_id = g.same_id ∙ f.same_id;
  own = elim f.own [
    | inl mine ↦ inl mine
    | inr e ↦ elim g.own [ inl mine ↦ inl (sym f.same_id ∙ mine) | inr e' ↦ inr (e' ∙ e) ]
  ];
  move = Move-trans f.move g.move;
}

-- The tables that a call may leave.
abbrev pub Changes : CallKind → String → Requests → Requests → Type 0
Changes k id rows rows' = Pointwise (Changed k id) rows rows'

pub Changes-refl : (k : CallKind) (id : String) (rows : Requests) → Changes k id rows rows
Changes-refl k id [] = empty
Changes-refl k id (r ∷ rows) = both (Changed-refl k id r) (Changes-refl k id rows)

pub Changes-trans :
    {k : CallKind} {id : String} {a b c : Requests}
    → Changes k id a b
    → Changes k id b c
    → Changes k id a c
Changes-trans empty empty = empty
Changes-trans (both f fs) (both g gs) = both (Changed-trans f g) (Changes-trans fs gs)

update-Changes :
    (k : CallKind) (id : String) (p : BackchannelAuthRequest → Bool)
    (f : BackchannelAuthRequest → BackchannelAuthRequest) (rows : Requests)
    → ((r : BackchannelAuthRequest) → p r ≡ true → Changed k id r (f r))
    → Changes k id rows (update_where p f rows)
update-Changes k id p f rows each = update_where-Pointwise p f (Changed k id) rows (λ r.
    elim (Bool-cases (p r)) [
      | inl hit ↦ rw hit (each r hit)
      | inr miss ↦ rw miss (Changed-refl k id r)
    ])

is_pending-status : (s : BackchannelStatus) → is_pending s ≡ true → s ≡ BackchannelStatus.pending
unfolding is_pending
is_pending-status BackchannelStatus.pending h = refl
is_pending-status BackchannelStatus.approved h = cc
is_pending-status BackchannelStatus.denied h = cc
is_pending-status BackchannelStatus.expired h = cc
is_pending-status BackchannelStatus.issued h = cc
is_pending-status (BackchannelStatus.other t) h = cc

is_approved-status : (s : BackchannelStatus) → is_approved s ≡ true → s ≡ BackchannelStatus.approved
unfolding is_approved
is_approved-status BackchannelStatus.pending h = cc
is_approved-status BackchannelStatus.approved h = refl
is_approved-status BackchannelStatus.denied h = cc
is_approved-status BackchannelStatus.expired h = cc
is_approved-status BackchannelStatus.issued h = cc
is_approved-status (BackchannelStatus.other t) h = cc

open-own :
    (now : ℕ) (id : String) (r : BackchannelAuthRequest)
    → open_at now id r ≡ true
    → (r.auth_req_id ≡ id) × (r.status ≡ BackchannelStatus.pending)
unfolding open_at
open-own now id r h =
    let (named, more) = (and-eq-true_iff (r.auth_req_id == id) _).0 h in
    let (pending, ahead) = (and-eq-true_iff (is_pending r.status) _).0 more in
    ((eq_iff _ _).0 named, is_pending-status r.status pending)

pub mark_approved-Changes :
    (now : ℕ) (id subject email name : String) (rows : Requests)
    → Changes approving id rows (mark_approved now id subject email name rows).1
unfolding mark_approved set_approved
mark_approved-Changes now id subject email name rows =
    update-Changes approving id (open_at now id) (set_approved now subject email name) rows
      (λ r hit.
        let (mine, pending) = open-own now id r hit in
        record {
          same_id = refl;
          own = inl mine;
          move = subst (λ s. Move approving s BackchannelStatus.approved) (sym pending) accepts;
        })

pub mark_denied-Changes :
    (now : ℕ) (id : String) (rows : Requests) → Changes denying id rows (mark_denied now id rows).1
unfolding mark_denied set_denied
mark_denied-Changes now id rows =
    update-Changes denying id (open_at now id) set_denied rows (λ r hit.
      let (mine, pending) = open-own now id r hit in
      record {
        same_id = refl;
        own = inl mine;
        move = subst (λ s. Move denying s BackchannelStatus.denied) (sym pending) rejects;
      })

pub mark_issued-Changes :
    (k : CallKind) (id : String) (rows : Requests)
    → Move k BackchannelStatus.approved BackchannelStatus.issued
    → Changes k id rows (mark_issued id rows).1
unfolding mark_issued set_issued approved_as
mark_issued-Changes k id rows issues =
    update-Changes k id (approved_as id) set_issued rows (λ r hit.
      let (named, approved) = (and-eq-true_iff (r.auth_req_id == id) _).0 hit in
      record {
        same_id = refl;
        own = inl ((eq_iff _ _).0 named);
        move =
            subst (λ s. Move k s BackchannelStatus.issued)
              (sym (is_approved-status r.status approved)) issues;
      })

pub touch_poll-Changes :
    (k : CallKind) (at : ℕ) (id : String) (rows : Requests)
    → Changes k id rows (touch_poll at id rows)
unfolding touch_poll set_polled
touch_poll-Changes k at id rows =
    update-Changes k id (λ r. r.auth_req_id == id) (set_polled at) rows
      (λ r hit. record { same_id = refl; own = inl ((eq_iff _ _).0 hit); move = stays })

pub set_last_notify_error-Changes :
    (k : CallKind) (id msg : String) (rows : Requests)
    → Changes k id rows (set_last_notify_error id msg rows)
unfolding set_last_notify_error set_error
set_last_notify_error-Changes k id msg rows =
    update-Changes k id (λ r. r.auth_req_id == id) (set_error msg) rows
      (λ r hit. record { same_id = refl; own = inl ((eq_iff _ _).0 hit); move = stays })
