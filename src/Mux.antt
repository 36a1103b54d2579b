-- ===== src/Mux.antt =====
-- corral/corral/detail/wait.h: the combiners AnyOf, MostOf and AllOf.
-- `State` has the data, `Helper` what a MuxHelper does with one awaitable, `Combiner` what the mux
-- does with all of them.
mod Tests
pub mod State
pub mod Helper
pub mod Combiner
pub mod Done
pub mod Inv
pub mod Works
pub mod Count
pub mod Abort
pub mod Cancel
pub mod Kickoff
pub mod Start
