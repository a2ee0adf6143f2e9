-- ===== src/Api.antt =====
-- The API types of api/v1alpha1 that the components read: workflows and their steps, runs and
-- their status, and JSON values.
pub mod Json
pub mod Step
pub mod Run
