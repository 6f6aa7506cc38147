-- ===== src/Controller.antt =====
-- src/controller.rs: the controller of one test, on the client and on the server.
pub mod State
pub mod Streams
pub mod Results
pub mod Run
pub mod Directions
pub mod Agreement
pub mod Registered
pub mod Accepting
pub mod Connecting
pub mod Reaching
pub mod Lifecycle
pub mod Identity
pub mod Ending
pub mod Collecting
pub mod Cooperation
pub mod Reporting
pub mod Finishing
pub mod Turns
pub mod Draining
pub mod Completion
pub mod Breaking
pub mod WholeTest
pub mod Interrupted
pub mod Losing
pub mod Machine
pub mod Protocol
pub mod Starting
pub mod Following
pub mod Unordered
