-- ===== src/Tests.antt =====
-- Concrete connections, encodings and hosts, and the theorems at concrete inputs.
mod Wire
mod Machine
mod OnWire
mod OnController
mod OnServer
mod OnWorker
mod OnListener
mod OnUi
mod OnProtocol
mod OnResults
mod OnTask
mod Desk
mod OnCompletion
mod OnStarting
mod OnSession
mod OnWholeSession
mod OnOversize
mod OnSocket
mod OnDrain
mod OnSequence
