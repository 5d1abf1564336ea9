-- ===== src/Api.antt =====
-- The custom resources of api/v1alpha1.
mod Common
mod Cards
mod Boards
unfoldable pub use Common.*
unfoldable pub use Cards.*
unfoldable pub use Boards.*
