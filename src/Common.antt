-- ===== src/Common.antt =====
-- The names that every module shares: the libraries', passed on, and those of the children.
mod Base
mod Lists
mod Text
mod Maps
mod Prefix
mod Pieces
mod Outcomes
unfoldable pub use Base.*
unfoldable pub use Lists.*
unfoldable pub use Text.*
unfoldable pub use Maps.*
unfoldable pub use Prefix.*
unfoldable pub use Pieces.*
unfoldable pub use Outcomes.*
