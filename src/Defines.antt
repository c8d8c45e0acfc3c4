-- ===== src/Defines.antt =====
-- source/defines.h: the budgets, thresholds and tier numbers. Times are in nanoseconds.
use lunar_sched.Base.{ℕ, ◌*◌, ◌/◌}

abbrev pub ns_per_us : ℕ
ns_per_us = 1000

abbrev pub ns_per_ms : ℕ
ns_per_ms = 1000 * ns_per_us

abbrev pub starve_budget_interactive_ns : ℕ
starve_budget_interactive_ns = 25 * ns_per_ms

abbrev pub starve_budget_normal_ns : ℕ
starve_budget_normal_ns = 50 * ns_per_ms

abbrev pub starve_budget_greedy_ns : ℕ
starve_budget_greedy_ns = 75 * ns_per_ms

abbrev pub starve_override_cooldown_ns : ℕ
starve_override_cooldown_ns = 10 * ns_per_ms

abbrev pub slice_ns : ℕ
slice_ns = 1000 * ns_per_us

abbrev pub starve_override_budget_ns : ℕ
starve_override_budget_ns = slice_ns

abbrev pub resume_slice_min_ns : ℕ
resume_slice_min_ns = 50 * ns_per_us

abbrev pub balance_interval_ns : ℕ
balance_interval_ns = 10 * ns_per_ms

abbrev pub balance_samples : ℕ
balance_samples = 2

abbrev pub duty_init_run_ns : ℕ
duty_init_run_ns = 80 * ns_per_ms

abbrev pub duty_window_ns : ℕ
duty_window_ns = 100 * ns_per_ms

abbrev pub duty_samples_needed : ℕ
duty_samples_needed = 3

abbrev pub duty_samples_max : ℕ
duty_samples_max = 1000

abbrev pub duty_range : ℕ
duty_range = 1024

abbrev pub duty_cap_lc : ℕ
duty_cap_lc = 5 * duty_range / 100

abbrev pub duty_cap_interactive : ℕ
duty_cap_interactive = 10 * duty_range / 100

abbrev pub duty_cap_normal : ℕ
duty_cap_normal = 80 * duty_range / 100

abbrev pub duty_hyst : ℕ
duty_hyst = 1 * duty_range / 100

abbrev pub kthread_init_duty_pct : ℕ
kthread_init_duty_pct = 8

abbrev pub crit_interval_ref : ℕ
crit_interval_ref = 1000 * ns_per_ms

abbrev pub crit_interval_min : ℕ
crit_interval_min = 10 * ns_per_us

abbrev pub crit_max : ℕ
crit_max = 40

abbrev pub crit_edge_lc : ℕ
crit_edge_lc = 5

abbrev pub crit_edge_interactive : ℕ
crit_edge_interactive = 3

abbrev pub crit_edge_normal : ℕ
crit_edge_normal = 1

-- Tiers: a smaller number is a better tier.
abbrev pub dsq_type_lc : ℕ
dsq_type_lc = 1

abbrev pub dsq_type_interactive : ℕ
dsq_type_interactive = 2

abbrev pub dsq_type_normal : ℕ
dsq_type_normal = 3

abbrev pub dsq_type_greedy : ℕ
dsq_type_greedy = 4

abbrev pub dsq_type_empty : ℕ
dsq_type_empty = 5

abbrev pub dsq_cpu_queue_base_lc : ℕ
dsq_cpu_queue_base_lc = 1536

abbrev pub dsq_cpu_queue_base_interactive : ℕ
dsq_cpu_queue_base_interactive = 2048

abbrev pub dsq_cpu_queue_base_normal : ℕ
dsq_cpu_queue_base_normal = 2560

abbrev pub dsq_cpu_queue_base_greedy : ℕ
dsq_cpu_queue_base_greedy = 3072

abbrev pub max_cpus : ℕ
max_cpus = 512

abbrev pub wake_boost_from_kthreads : ℕ
wake_boost_from_kthreads = 0

abbrev pub wake_boost_budget_ns : ℕ
wake_boost_budget_ns = 4 * ns_per_ms

abbrev pub rt_cpu_load : ℕ
rt_cpu_load = 2

abbrev pub sched_fifo : ℕ
sched_fifo = 1

abbrev pub sched_rr : ℕ
sched_rr = 2

abbrev pub sched_deadline : ℕ
sched_deadline = 6
