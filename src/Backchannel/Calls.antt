-- ===== src/Backchannel/Calls.antt =====
-- internal/service/backchannel.go: what `Redeem`, `Approve` and `Deny` do to the table of requests.
