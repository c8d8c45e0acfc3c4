-- ===== src/Invariant/Calls/Taking.antt =====
-- The calls of a dispatch.
use lunar_sched.Base.{ℕ, ◌<◌, refl, inl, inr}
use lunar_sched.Dispatch.Logic.{Rules, IsSource}
use lunar_sched.Dispatch.Logic.Whole.{dispatch_dsq_per_cpu-Returns}
use lunar_sched.Dispatch.Order.{dispatch_dsq_per_cpu}
use lunar_sched.Dsq.{get_cpu_dsq_from_type, stamp_tier_head_ts}
use lunar_sched.Invariant.Calls.{IsQueue, Ordered, emit-Ordered, modify_cpu-Ordered}
use lunar_sched.Kernel.{Machine, World}
use lunar_sched.Tier.Target.{IsTier}

module _ (m : Machine) (cpu : ℕ) (below : cpu < m.nr_cpu_ids) where
  source-IsQueue :
      (tier c : ℕ) → IsTier tier → IsSource m cpu c → IsQueue m (get_cpu_dsq_from_type tier c)
  source-IsQueue tier c t (inl own) = (tier, cpu, t, below, rw own refl)
  source-IsQueue tier c t (inr (inside, online)) = (tier, c, t, inside, refl)

  abbrev Keeps : World → World → Type 0
  Keeps w w' = Ordered m w → Ordered m w'

  in_order : Rules m cpu (λ tier. Keeps) Keeps
  in_order = record {
    searches = record {
      still = λ w h. h;
      then_miss = λ a b c h k o. k (h o);
      then_hit = λ tier a b c h k o. k (h o);
      clock = λ now w h. emit-Ordered m _ w tt h;
      random = λ n w h. emit-Ordered m _ w tt h;
      refused = λ tier c w t src e h. emit-Ordered m _ w (source-IsQueue tier c t src) h;
      taken = λ tier c now w t src h.
          modify_cpu-Ordered m c (stamp_tier_head_ts tier now) _
            (emit-Ordered m _ w (source-IsQueue tier c t src) h);
    };
    label_miss = λ f w k h. modify_cpu-Ordered m cpu f w h;
    label_hit = λ tier f a b k h o. modify_cpu-Ordered m cpu f b (h o);
  }

  pub dispatch_dsq_per_cpu-Ordered :
      (prev_tier : ℕ) (w : World)
      → Ordered m w
      → Ordered m (dispatch_dsq_per_cpu m cpu prev_tier w).1
  dispatch_dsq_per_cpu-Ordered prev_tier w h =
      elim (dispatch_dsq_per_cpu-Returns in_order prev_tier w) [
        | inl (t, k) ↦ k h
        | inr (t, k) ↦ k h
      ]
