-- ===== src/Identity/Status.antt =====
-- domain/identity.go: the lifecycle of an identity. The Go type is a string; `other` stands for
-- every value that no constant names.
use zeroid.Prelude.{String, Bool, true, false}

pub data IdentityStatus : Type 0 where
  pending active suspended deactivated : IdentityStatus
  other : String → IdentityStatus

-- `IdentityStatus.Valid`
unfoldable pub valid : IdentityStatus → Bool
valid pending = true
valid active = true
valid suspended = true
valid deactivated = true
valid (other s) = false

-- `IdentityStatus.CanTransitionTo`
unfoldable pub can_transition_to : IdentityStatus → IdentityStatus → Bool
can_transition_to pending active = true
can_transition_to pending deactivated = true
can_transition_to active suspended = true
can_transition_to active deactivated = true
can_transition_to suspended active = true
can_transition_to suspended deactivated = true
can_transition_to deactivated active = true
can_transition_to _ _ = false

-- `IdentityStatus.IsUsable`
unfoldable pub is_usable : IdentityStatus → Bool
is_usable active = true
is_usable _ = false
