-- ===== src/Tests.antt =====
-- The theorems on runs of the code: one application of each at concrete values.
mod OnBitvec
mod OnRegistry
mod OnCallout
mod OnIds
mod OnEnrol
mod OnXdr
mod OnCache
mod OnGc
mod OnClone
mod OnArrival
mod OnServer
mod OnRec
mod OnTcp
