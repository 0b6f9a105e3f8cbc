-- ===== src/Identity/Lifecycle.antt =====
-- The diagram of domain/identity.go: which statuses an identity can pass through by the
-- transitions that `CanTransitionTo` accepts.
use zeroid.Prelude.{◌≡◌, ◌≢◌, refl, ◌↔◌, true, arith}
use zeroid.Identity.Status.{
  IdentityStatus, pending, active, suspended, deactivated, other, valid, can_transition_to,
}

pub data Reaches : IdentityStatus → IdentityStatus → Type 0 where
  here : {s : IdentityStatus} → Reaches s s
  next : {s t u : IdentityStatus} → can_transition_to s t ≡ true → Reaches t u → Reaches s u

-- What an accepted transition says of its ends.
abbrev pub Sound : IdentityStatus → IdentityStatus → Type 0
Sound s t = (valid t ≡ true) × (t ≡ pending → s ≡ pending)

Sound-step : (s t u : IdentityStatus) → can_transition_to s t ≡ true → Sound t u → Sound s u
unfolding can_transition_to
Sound-step pending active u h k = (k.0, λ e. refl)
Sound-step pending deactivated u h k = (k.0, λ e. refl)
Sound-step active suspended u h k = (k.0, λ e. cc (k.1 e))
Sound-step active deactivated u h k = (k.0, λ e. cc (k.1 e))
Sound-step suspended active u h k = (k.0, λ e. cc (k.1 e))
Sound-step suspended deactivated u h k = (k.0, λ e. cc (k.1 e))
Sound-step deactivated active u h k = (k.0, λ e. cc (k.1 e))
Sound-step _ _ u h k = cc

valid-target : (s t : IdentityStatus) → can_transition_to s t ≡ true → valid t ≡ true
unfolding valid can_transition_to
valid-target s t h = ground arith

Reaches-Sound : {s t : IdentityStatus} → Reaches s t → valid s ≡ true → Sound s t
Reaches-Sound here v = (v, λ e. e)
Reaches-Sound (next {s} {t} {u} h r) v = Sound-step s t u h (Reaches-Sound r (valid-target s t h))

Reaches-trans : {s t u : IdentityStatus} → Reaches s t → Reaches t u → Reaches s u
Reaches-trans here q = q
Reaches-trans (next h r) q = next h (Reaches-trans r q)

to_active : (s : IdentityStatus) → valid s ≡ true → Reaches s active
unfolding valid can_transition_to
to_active pending v = next refl here
to_active active v = here
to_active suspended v = next refl here
to_active deactivated v = next refl here
to_active (other s) v = cc

from_active : (t : IdentityStatus) → valid t ≡ true → t ≢ pending → Reaches active t
unfolding valid can_transition_to
from_active pending v n = absurd (n refl)
from_active active v n = here
from_active suspended v n = next refl here
from_active deactivated v n = next refl here
from_active (other s) v n = cc

Reaches-complete : (s t : IdentityStatus) → valid s ≡ true → Sound s t → Reaches s t
Reaches-complete pending pending v k = here
Reaches-complete pending t v k = Reaches-trans (to_active pending v) (from_active t k.0 (λ e. cc e))
Reaches-complete s t v k = Reaches-trans (to_active s v) (from_active t k.0 (λ e. cc (k.1 e)))

-- From a valid status, an identity can be brought into exactly the valid statuses, except that
-- `pending` is never entered again.
pub Reaches-iff : (s t : IdentityStatus) → valid s ≡ true → Reaches s t ↔ Sound s t
Reaches-iff s t v = (λ r. Reaches-Sound r v, Reaches-complete s t v)
