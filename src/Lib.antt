-- ===== src/Lib.antt =====
-- ZeroID, an identity and token service for agents, in the parts of its Go code that decide who gets a
-- token, and for how long.
--
-- The program registers identities of agents and services, each with a WIMSE URI, a status and a
-- credential policy, and issues them signed tokens through OAuth grants. Every grant ends in one
-- chokepoint, `IssueCredential`, which checks the identity, clamps the lifetime, enforces the policies,
-- signs a JWT and stores a row. Long sessions hold refresh tokens, which rotate in families; requests
-- that a user must approve (CIBA) are stored, resolved by another call and redeemed by polling, or
-- delivered by a callback. Agents delegate to each other by exchanging tokens, which form a tree over
-- `parent_jti`; a revocation takes the tree below it along.
--
-- Files, each with the code that it models:
--   Identity        domain/identity.go: statuses and their transitions, types, sub-types, trust levels
--                   and the row; Spiffe: WIMSE URIs, with `parseWIMSEURI` of internal/service/oauth.go
--   Policy          internal/service/credential_policy.go, domain/credential_policy.go and
--                   domain/attestation.go: `EnforcePolicy` and `EnforceSubset`; Admin: `CreatePolicy` and
--                   `UpdatePolicy`; Default: `EnsureDefaultPolicy`; Delete: `DeletePolicy` with the
--                   foreign keys of migrations/006_service_keys.up.sql and
--                   migrations/009_identity_credential_policy.up.sql
--   Credential      internal/service/credential.go: `IssueCredential`. Defs holds the data, Claims the
--                   JWT, Issue the stages of the function; the modules of Grant prove what is known of
--                   an issued credential. Revoke: revocation with the cascade of
--                   migrations/007_cascade_revocation.up.sql, rotation and introspection, with Cascade,
--                   Revoked and Rotated on what they leave
--   OAuth           internal/service/oauth.go and authcode.go, internal/jwtalg/jwtalg.go and
--                   internal/store/postgres/auth_code.go: the grants. Defs holds the data, Step the
--                   steps on the tables, Lookup what the grants look up, Agent, Exchange, External, Key,
--                   AuthCode, CodeGrant and RefreshGrant the grants, Endpoint `Token`, `Introspect` and
--                   `Revoke`; the other modules are about them
--   Refresh         internal/service/refresh_token.go and internal/store/postgres/refresh_token.go:
--                   issue, rotation in a transaction, reuse detection, revocation of a family
--   Scope           internal/service/oauth.go: `parseScopeString`, `effectiveAllowedScopes`,
--                   `intersectScopes`
--   Backchannel     internal/service/backchannel.go and internal/store/postgres/backchannel_request.go:
--                   the statements of the repository, `Approve`, `Deny`, `Redeem` and the issuance;
--                   it calls Scope and Credential as the source does; Notify, Attempts and Retry: the
--                   retries of a callback; the other modules are about them
--   Delegation      internal/service/delegation.go: Graph holds `GetGraph`, `WalkByJTI` and what they
--                   build from the rows of a walk; Merged, Explored and Attenuation are about them
--   Tests           runs on concrete data, with the theorems applied to them
--   Prelude         tests, lists, integers, results and tables for all of these
--
-- State and operations. A table is the list of its rows; an operation takes it and returns its answer
-- and the table that it leaves. What an operation takes from outside is an argument: the readings of the
-- clock, in the order of the source, the random identifiers, and whether a statement of the database
-- runs without an error. A time is a natural number of nanoseconds. An `int` is an integer without a
-- bound: the code compares, takes the smaller one and multiplies seconds into nanoseconds, far from the
-- bounds. A transaction is its body on the table, and an error drops what it did. In the CIBA calls the
-- row is read from one table and the update runs on a later one, so that the statements of other calls
-- may come between; a trace is a sequence of such statements. A grant is a step on the tables that keeps
-- what it wrote before an error, as the source does outside a transaction. Functions recurse on lists and
-- texts, and three on a number that the source sets: the cascade on its 50 levels, the cut of a graph on
-- its 500 credentials, the retries on the attempts that are left.
--
-- Parameters: the JWT library with the server's keys is `sign`, SHA-256 is `hash`, the parser of times is
-- `parse_time`, and what else the grants call is the record `Libraries`: parsing and verification of
-- tokens, PEM and X.509, bcrypt, and the replacement in a text. What PostgreSQL answers to the walks of
-- the delegation tree is in `Answers`. No property is supposed of any. The JWT library writes times in
-- whole seconds; the claims here are those that are handed to it.
--
-- Not modelled: the administration of identities, keys and clients; the creation of a CIBA request;
-- `ListChains` and the statements that walk the delegation tree; the verification of attestations, DPoP
-- proofs and foreign tokens; the cleanup of expired rows; HTTP, SQL text other than the statements named
-- above, configuration, telemetry, and the clients in other languages.
pub mod Prelude
pub mod Identity
pub mod Policy
pub mod Credential
pub mod OAuth
pub mod Refresh
pub mod Scope
pub mod Backchannel
pub mod Delegation
pub mod Tests
