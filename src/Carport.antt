-- ===== src/Carport.antt =====
-- internal/carport: the supervision of driver instances and the dispatch of commands to them.
pub mod Fsm
pub mod Supervisor
pub mod Dispatch
mod Tests
