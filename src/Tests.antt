-- ===== src/Tests.antt =====
-- The theorems at concrete inputs: a cluster, its child resources and a small API server to run on.
mod Sample
mod ScaleRuns
mod GrowRuns
mod StatusRuns
mod ResourceRuns
mod Reconcilers
mod ReconcilerRuns
mod RestartRuns
mod LoopRuns
mod StatefulSetRuns
mod ChildRuns
mod Inis
mod BuilderRuns
mod ContentRuns
mod CommandRuns
mod LoopPasses
mod StartRuns
