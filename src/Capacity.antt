-- ===== src/Capacity.antt =====
-- src/capacity: how many entries of each kind a listener and a client pool ask the ring for.
use yaoi.Base.{ℕ, mul_usize}
use yaoi.Crates.{
  BearerCapacityKind, core_queue, registered_fd, pending_completions, buffers, futexes,
}

pub record TcpListenerCapacity : Type 0 where
  pub q_count : ℕ

pub record TcpPoolCapacity : Type 0 where
  pub pool_count : ℕ

pub listener_setting : TcpListenerCapacity → BearerCapacityKind → ℕ
listener_setting s core_queue = s.q_count
listener_setting s registered_fd = 1
listener_setting s pending_completions = s.q_count
listener_setting s buffers = 0
listener_setting s futexes = 0

unfoldable pub pool_setting : TcpPoolCapacity → BearerCapacityKind → ℕ
pool_setting s core_queue = mul_usize s.pool_count 3
pool_setting s registered_fd = s.pool_count
pool_setting s pending_completions = mul_usize s.pool_count 3
pool_setting s buffers = mul_usize s.pool_count 3
pool_setting s futexes = 0
