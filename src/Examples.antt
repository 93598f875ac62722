-- ===== src/Examples.antt =====
-- Concrete runs of the modelled code, to which the theorems are applied.
mod HistoryRuns
mod ProtocolRuns
mod SendRuns
mod StoreRuns
mod TransportRuns
mod WaRuns
mod LifecycleRuns
mod DeliveryRuns
mod FetchRuns
mod LiveRuns
mod MediaRuns
mod LogRuns
