-- ===== src/Stream.antt =====
-- tokio's `TcpStream`, and the actions on it.
mod Defs
pub mod Io
pub mod Exchange
pub mod Shrinks
pub mod Does
pub mod Yields
pub use Defs.*
