-- ===== src/Control.antt =====
pub mod Text
pub mod Start
pub mod Node
pub mod Routed
pub mod Command
pub mod Views

-- cmd/orrisctl and cmd/orrisd: the command lines of the control tool and of the daemon.
