-- ===== src/Ratelimit.antt =====
-- internal/ratelimit: the limits on calls before and after the credential is known.
pub mod Edge
pub mod Quota
