-- ===== src/Callbacks/Queue/Sound.antt =====
-- callbacks/routes.go, the latency queue: the invariant of every interleaving of callers and workers.
use load_test_backend.Callbacks.Queue.{Queue}
