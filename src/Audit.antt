-- ===== src/Audit.antt =====
-- The audit snapshot of a run: its redaction (internal/workflow/executor/audit_redaction.go), and
-- its size (internal/workflow/executor/checkpoint.go). A context is a document as encoding/json
-- writes it; a map is iterated in the order of its fields.
pub mod Redaction
pub mod Paths
pub mod Secrecy
pub mod Outputs
pub mod Truncate
pub mod Kept
pub mod Size
pub mod Bounds
mod Samples
