-- ===== src/Tests/Deletion.antt =====
-- The deletion of a policy that an identity has, with no key in the way and with one.
use zeroid.Prelude.{◌≡◌, refl, true, false, none, [], ◌∷◌, ◌⊎◌}
use zeroid.Prelude.Result.{ok, err}
use zeroid.Prelude.Table.{any, count_where, delete_where, update_where}
use zeroid.Identity.Model.{Identity}
use zeroid.Policy.Admin.{in_tenant}
use zeroid.OAuth.Defs.{ApiKey}
use zeroid.Policy.Delete.{
  PolicyTables, DeleteError, still_referenced, delete_failed, key_in_tenant, key_refers,
  identity_refers, clear_policy, delete_row, delete, delete_policy,
}
use zeroid.Policy.Detached.{Detached, delete_policy-Detached}
use zeroid.Tests.Policy.{wide}
use zeroid.Tests.OAuth.{agent}

abbrev other_key : ApiKey
other_key = record {
  id = "key-1";
  key_hash = "hash";
  account_id = "acct";
  project_id = "proj";
  identity_id = "agent";
  created_by = "user";
  scopes = [];
  expires_at = none;
  state = "active";
  credential_policy_id = "narrow";
}

abbrev holder : Identity
holder = record agent { credential_policy_id = "wide" }

abbrev tables : PolicyTables
tables = record { policies = wide ∷ []; keys = other_key ∷ []; identities = holder ∷ [] }

abbrev keyed : PolicyTables
keyed = record tables { keys = record other_key { credential_policy_id = "wide" } ∷ [] }

abbrev abroad : PolicyTables
abroad = record tables {
  keys = record other_key { credential_policy_id = "wide"; account_id = "else" } ∷ [];
}

wide_there : any (in_tenant "wide" "acct" "proj") tables.policies ≡ true
unfolding any
wide_there = refl

delete_policy-Detached_example :
    ((any (key_refers "wide") tables.keys ≡ true)
      × ((e : DeleteError) × (delete_policy true true "wide" "acct" "proj" tables ≡ err e)))
    ⊎ ((any (key_refers "wide") tables.keys ≡ false)
        × ((t' : PolicyTables) × (delete_policy true true "wide" "acct" "proj" tables ≡ ok t')
            × Detached "wide" "acct" "proj" tables t'))
delete_policy-Detached_example =
    delete_policy-Detached "wide" "acct" "proj" tables (λ e. cc e) wide_there

left :
    delete_policy true true "wide" "acct" "proj" tables
    ≡ ok (record {
      policies = [];
      keys = other_key ∷ [];
      identities = record agent { credential_policy_id = "" } ∷ [];
    })
unfolding delete_policy delete delete_row any count_where delete_where update_where key_in_tenant
    key_refers identity_refers clear_policy
left = refl

held_by_key : delete_policy true true "wide" "acct" "proj" keyed ≡ err still_referenced
unfolding delete_policy delete count_where key_in_tenant
held_by_key = refl

held_abroad : delete_policy true true "wide" "acct" "proj" abroad ≡ err delete_failed
unfolding delete_policy delete delete_row any count_where key_in_tenant key_refers
held_abroad = refl
