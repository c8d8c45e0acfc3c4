-- ===== src/Dsq/Ids.antt =====
-- Distinct tiers and cpus have distinct queues.
use lunar_sched.Base.{ℕ, ◌+◌, ◌*◌, ◌<◌, ◌≡◌, arith}
use lunar_sched.Defines.{max_cpus}
use lunar_sched.Dsq.{get_cpu_dsq_from_type}
use lunar_sched.Tier.Target.{IsTier}

-- No two queues of a tier and a cpu have the same number, for cpus below MAX_CPUS.
pub get_cpu_dsq_from_type_injective :
    (tier tier' cpu cpu' : ℕ)
    → IsTier tier
    → IsTier tier'
    → cpu < max_cpus
    → cpu' < max_cpus
    → get_cpu_dsq_from_type tier cpu ≡ get_cpu_dsq_from_type tier' cpu'
    → (tier ≡ tier') × (cpu ≡ cpu')
unfolding get_cpu_dsq_from_type
get_cpu_dsq_from_type_injective tier tier' cpu cpu' h h' k k' e = ground arith

pub get_cpu_dsq_from_type_number :
    (tier cpu : ℕ)
    → IsTier tier
    → cpu < max_cpus
    → get_cpu_dsq_from_type tier cpu ≡ 1024 + 512 * tier + cpu
unfolding get_cpu_dsq_from_type
get_cpu_dsq_from_type_number tier cpu h k = ground arith
