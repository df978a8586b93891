-- ===== src/Common/Dict.antt =====
-- Python's `dict` with text keys: the entries in insertion order, each key once.
mod Defs
mod Laws
mod Least
unfoldable pub use Defs.*
unfoldable pub use Laws.*
unfoldable pub use Least.*
