-- ===== src/JobQueue.antt =====
-- src/web_app_classes/rag_job_queue.py: `RagJobQueue`. Each child is one part of the class.
pub mod State
pub mod History
pub mod Enqueue
pub mod Cancel
pub mod Worker
pub mod Waiting
pub mod Steps
pub mod Invariant
pub mod Preservation
pub mod Effects
pub mod Coalescing
pub mod Lifecycle
pub mod Finishing
pub mod Patience
pub mod Recovery
pub mod Summary
mod Tests
