-- ===== src/Model/Configs.antt =====
-- The model configurations of driver/legion-laptop.c, passed on from the children.
mod V0ToKwcn
mod G8cnToK1cn
mod RzcnToFccn
mod H3cnToNecn
mod NzcnToM3cn
mod M3cn8227ToUfcn
pub use V0ToKwcn.*
pub use G8cnToK1cn.*
pub use RzcnToFccn.*
pub use H3cnToNecn.*
pub use NzcnToM3cn.*
pub use M3cn8227ToUfcn.*
