-- ===== src/Records.antt =====
-- The records that the stores keep: sessions and messages (src/sessions/), runs (src/orchestration/),
-- actions (src/execution/) and approvals (src/defense/). Ids are texts. Times are seconds after 1970,
-- so an `i64` of the source is a natural number here.
pub mod Session
pub mod Run
pub mod Action
pub mod Approval
pub mod RoundTrips
