-- ===== src/Router.antt =====
-- routing.go: the request router. State, the view of the account pool that it is given, and the
-- filters that a request's candidates go through; `Router/Rotate` and `Router/Pick` go on from here.
pub mod State
pub mod Candidates
pub mod Rotate
pub mod Pick
pub mod Bind
pub mod Membership
pub mod Safety
pub mod Availability
pub mod Cursor
pub mod Capacity
pub mod Served
pub mod Quota
pub mod Rounds
pub mod Weights
