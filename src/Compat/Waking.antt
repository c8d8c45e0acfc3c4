-- ===== src/Compat/Waking.antt =====
-- What a wakeup does in each context: the counters of the cpu together with the wake boost.
