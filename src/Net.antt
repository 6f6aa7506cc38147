-- ===== src/Net.antt =====
-- src/net_util.rs: control messages on a connection. The connection and the encodings are
-- those of other packages, and are taken as an interface (`Net.Interface`).
pub mod Interface
pub mod Frame
mod ReadBody
pub mod Specification
pub mod RoundTrip
pub mod Messages
pub mod Delivery
pub mod Oversize
pub mod Sequence
