-- ===== src/Versions.antt =====
-- backend/versions.js: the history of a scenario's archives. Each function runs in its caller's
-- transaction. The table's partial unique indexes and foreign keys (migration 010) are checked by
-- `insert_version` and `set_current`; the widths of its text columns are not, since the archive
-- validator admits no longer value.
pub mod History
pub mod Uploads
pub mod Lists
pub mod Invariant
pub mod Room
pub mod Install
pub mod Insert
pub mod Upload
pub mod Uploaded
pub mod Promote
pub mod Param
unfoldable pub use History.*
unfoldable pub use Uploads.*
