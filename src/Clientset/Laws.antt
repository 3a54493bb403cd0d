-- ===== src/Clientset/Laws.antt =====
-- The timeout that List, Watch and DeleteCollection of both typed clients compute.
use lib_bucket_provisioner.Base.{ℕ, ◌*◌, ◌^◌, ◌≤◌, ◌<◌, ◌≡◌, some, arith}
use lib_bucket_provisioner.Clientset.Rest.{second, timeout_of}

-- A timeout of at most 9223372036 seconds is that many nanoseconds, which are a positive int64.
timeout_of-exact :
    (s : ℕ) → s ≤ 9223372036 → (timeout_of (some s) ≡ s * second) × (timeout_of (some s) < 2 ^ 63)
unfolding timeout_of
timeout_of-exact s h = (omega arith, omega arith)
