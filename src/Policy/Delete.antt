-- ===== src/Policy/Delete.antt =====
-- `DeletePolicy` of internal/service/credential_policy.go, with `Delete` of
-- internal/store/postgres/credential_policy.go and the foreign keys on the table.
use zeroid.Prelude.{String, Bool, List, ◌==◌, ◌&&◌, if◌then◌else◌, ltb}
use zeroid.Prelude.Result.{Result, ok, err}
use zeroid.Prelude.Table.{any, count_where, delete_where, update_where}
use zeroid.Identity.Model.{Identity}
use zeroid.Policy.Defs.{CredentialPolicy}
use zeroid.Policy.Admin.{in_tenant}
use zeroid.OAuth.Defs.{ApiKey}

-- The tables that the call reads or that the foreign keys reach.
pub record PolicyTables : Type 0 where
  pub policies : List CredentialPolicy
  pub keys : List ApiKey
  pub identities : List Identity

pub data DeleteError : Type 0 where
  count_failed still_referenced delete_failed : DeleteError

unfoldable pub key_in_tenant : String → String → String → ApiKey → Bool
key_in_tenant id account project k =
    k.credential_policy_id == id && (k.account_id == account && k.project_id == project)

-- the foreign key of `api_keys`, which refuses the deletion
unfoldable pub key_refers : String → ApiKey → Bool
key_refers id k = k.credential_policy_id == id

-- the foreign key of `identities`, with `ON DELETE SET NULL`
unfoldable pub identity_refers : String → Identity → Bool
identity_refers id i = i.credential_policy_id == id

unfoldable pub clear_policy : Identity → Identity
clear_policy i = record i { credential_policy_id = "" }

-- the statement, with what the foreign keys do where it selects a row
unfoldable pub delete_row :
    String → String → String → PolicyTables → Result DeleteError PolicyTables
delete_row id account project t =
    if any (in_tenant id account project) t.policies
    then (if any (key_refers id) t.keys
        then err delete_failed
        else ok (record t {
          policies = delete_where (in_tenant id account project) t.policies;
          identities = update_where (identity_refers id) clear_policy t.identities;
        }))
    else ok t

-- `Delete` of the repository; `counts` and `runs` tell whether its two statements run
unfoldable pub delete :
    Bool → Bool → String → String → String → PolicyTables → Result DeleteError PolicyTables
delete counts runs id account project t =
    if counts
    then (if ltb 0 (count_where (key_in_tenant id account project) t.keys)
        then err still_referenced
        else if runs
        then delete_row id account project t
        else err delete_failed)
    else err count_failed

-- `DeletePolicy`
unfoldable pub delete_policy :
    Bool → Bool → String → String → String → PolicyTables → Result DeleteError PolicyTables
delete_policy counts runs id account project t = delete counts runs id account project t
