-- ===== src/Approvals/Store/Expiry.antt =====
-- When a grant expires.
use open_clause.Base.{ℕ, ◌+◌, ◌*◌, ◌≤◌, ◌<◌, ◌^◌, ◌≡◌, arith}
use open_clause.Base.Int.{pos}
use open_clause.Types.ToolCall.{Time}
use open_clause.Approvals.Store.Grants.{grant_expiry}

-- A grant asked for a number of seconds expires that many seconds later, up to 9223372036 of them.
grant_expiry_exact :
    (now : Time) (sec : ℕ)
    → 0 < sec
    → sec ≤ 9223372036
    → grant_expiry now (pos sec) ≡ now + sec * 1000000000
unfolding grant_expiry
grant_expiry_exact now sec h k = ground arith

-- Between 9223372037 and 18446744073 seconds the product with a second overflows: the grant has
-- expired when it is made, if the clock reads at least 2^63 nanoseconds since the zero time.
pub grant_expiry_overflow :
    (now : Time) (sec : ℕ)
    → 2 ^ 63 ≤ now
    → 9223372037 ≤ sec
    → sec ≤ 18446744073
    → grant_expiry now (pos sec) < now
unfolding grant_expiry
grant_expiry_overflow now sec c h k = ground arith
