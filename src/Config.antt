-- ===== src/Config.antt =====
-- internal/config: what changed between two snapshots, and the merge of discovered files.
pub mod Diff
pub mod Merge
mod Tests
