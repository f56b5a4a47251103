-- ===== src/Models.antt =====
-- The data that the components exchange (backend/models, backend/config.py, backend/agents/state.py).
pub mod Enums
pub mod Config
pub mod Time
pub mod Schemas
pub mod State
unfoldable pub use Enums.*
unfoldable pub use Config.*
unfoldable pub use Schemas.*
unfoldable pub use State.*
