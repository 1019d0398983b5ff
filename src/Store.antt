-- ===== src/Store.antt =====
-- pkg/store: the index of the documents at a commit, and the store over a git worktree.
pub mod Index
pub mod Git
pub mod Documents
pub mod Opening
pub mod Stable
pub mod Serving
pub mod Spec
pub mod Tests
