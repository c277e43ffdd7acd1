-- ===== src/GraphFilter.antt =====
-- The filter expressions of internal/modules/serial/graph_filter.go. A text is the list of its bytes.
pub mod Candidate
pub mod Token
pub mod Parser
pub mod Match
pub mod Language
mod Tests
