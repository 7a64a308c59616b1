-- ===== src/Tests.antt =====
-- Concrete inputs at which the theorems apply.
mod Data
mod Ring
mod Table
mod Tag
mod Rpc
mod Scheduler
mod StoreInit
mod Runtime
mod EtherCat
mod Builder
mod Tcp
