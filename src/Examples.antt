-- ===== src/Examples.antt =====
-- Concrete runs of the parts that have a module of the library.
mod QueueRuns
mod RepairRuns
mod RootRuns
mod HeaderRuns
mod ChannelRuns
mod PoolRuns
mod TalcRuns
mod DirectoryRuns
mod HeapRuns
mod SessionRuns
