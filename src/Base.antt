-- ===== src/Base.antt =====
-- Names that the other modules share: the libraries', passed on, and those of the children.
mod Tests
mod Lists
mod Strings
mod Maps
mod Results
mod Json
mod Digits
pub mod Compare
pub mod Sort
pub mod Max
pub use Tests.*
pub use Lists.*
unfoldable pub use Strings.*
unfoldable pub use Maps.*
pub use Results.*
unfoldable pub use Json.*
unfoldable pub use Digits.*
