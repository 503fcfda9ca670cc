-- ===== src/Scheduler/Config.antt =====
-- crates/scheduler/src/lib.rs: the limits of a scheduler, and the errors of its operations.
use ferrum_atlas.Prelude.{ℕ, Result, ensure, bind, leb, ◌&&◌, ◌==◌, nat_eq, ok}

pub record SchedulerConfig : Type 0 where
  pub version : ℕ  -- u32
  pub timeout_seconds : ℕ  -- u64
  pub memory_mib : ℕ  -- u64
  pub disk_quota_mib : ℕ  -- u64
  pub max_queued : ℕ  -- usize

-- One constructor for each message of the source.
pub data Error : Type 0 where
  unsupported_version invalid_deadline invalid_memory invalid_quota invalid_queue_limit : Error
  invalid_profile serialization request_too_large context_mismatch : Error
  unavailable fence_unavailable queue_full history_full entropy_unavailable io_failed : Error
  unknown_job invalid_fence superseded : Error
  journal_too_large incompatible_journal invalid_identity invalid_metadata invalid_events : Error

unfoldable pub default_config : SchedulerConfig
default_config = record {
  version = 1;
  timeout_seconds = 120;
  memory_mib = 8192;
  disk_quota_mib = 4096;
  max_queued = 16;
}

unfoldable pub validate : SchedulerConfig → Result Error (Unit {0})
validate c = bind (ensure (c.version == 1) unsupported_version) λ _.
    bind (ensure (leb 1 c.timeout_seconds && leb c.timeout_seconds 3600) invalid_deadline) λ _.
      bind (ensure (leb 256 c.memory_mib && leb c.memory_mib 131072) invalid_memory) λ _.
        bind (ensure (leb 1 c.disk_quota_mib && leb c.disk_quota_mib 1048576) invalid_quota) λ _.
          bind (ensure (leb 1 c.max_queued && leb c.max_queued 32) invalid_queue_limit) λ _. ok tt
