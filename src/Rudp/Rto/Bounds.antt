-- ===== src/Rudp/Rto/Bounds.antt =====
-- `updateRTO`: the bounds of the timeout, and the smoothing rules.
use rudp_go.Common.{ℕ, ◌+◌, ◌-◌, ◌*◌, ◌/◌, ◌^◌, ◌≤◌, ◌<◌, ◌≡◌, ℤ, pos, arith, refl, ◌==◌, false}
use rudp_go.Rudp.{Rudp, rto_max, max, bound}
use rudp_go.Rudp.Sized.{SizedAt, SameSizes, SameSizes-SizedAt}
use rudp_go.Rudp.Rto.{sample, set_rto, raw_rto, update_rto, smoothed_val, smoothed_srtt}

update_rto-SameSizes : (rtt : ℤ) (r : Rudp) → SameSizes r (update_rto rtt r)
unfolding update_rto
update_rto-SameSizes rtt r = ground arith

pub update_rto-Sized :
    (mtu : ℕ) (rtt : ℤ) (r : Rudp) → SizedAt mtu r → SizedAt mtu (update_rto rtt r)
update_rto-Sized mtu rtt r v = SameSizes-SizedAt mtu (update_rto-SameSizes rtt r) v

bound_lem :
    (low mid high : ℕ) → low ≤ high → (low ≤ bound low mid high) × (bound low mid high ≤ high)
bound_lem low mid high h = ground arith

sample-min_rto : (rtt : ℤ) (r : Rudp) → (sample rtt r).rx_min_rto ≡ r.rx_min_rto
unfolding sample
sample-min_rto rtt r = ground arith

-- Whatever the sample, also one that overflows, the timeout lies between the configured minimum and
-- 60000 ms, if the minimum does not exceed that.
pub update_rto_bounds :
    (rtt : ℤ) (r : Rudp)
    → r.rx_min_rto ≤ rto_max
    → let r' = update_rto rtt r in (r.rx_min_rto ≤ r'.rx_rto) × (r'.rx_rto ≤ rto_max)
unfolding update_rto set_rto
update_rto_bounds rtt r h = omega (
  arith,
  sample-min_rto rtt r,
  bound_lem (sample rtt r).rx_min_rto (raw_rto (sample rtt r)) rto_max
      (omega (arith, sample-min_rto rtt r)),
)

-- Numbers of a sample for which no int32 operation overflows.
abbrev pub IsModerate : ℕ → Type 0
IsModerate n = n < 2 ^ 27

abbrev pub distance : ℕ → ℕ → ℕ
distance a b = (a - b) + (b - a)

lt→not_== : (n : ℕ) → 0 < n → (n + 0 == 0) ≡ false
lt→not_== n h = ground arith

smoothed_val_lem :
    (v s t : ℕ)
    → IsModerate v
    → IsModerate s
    → IsModerate t
    → smoothed_val (pos v) (pos s) (pos t) ≡ pos ((3 * v + distance s t) / 4)
smoothed_val_lem v s t hv hs ht = ground arith

smoothed_srtt_lem :
    (s t : ℕ)
    → IsModerate s
    → IsModerate t
    → smoothed_srtt (pos s) (pos t) ≡ pos (max 1 ((7 * s + t) / 8))
smoothed_srtt_lem s t hs ht = ground arith

-- The state after a sample that leaves the average `s` and the deviation `v`.
abbrev pub smoothed : ℕ → ℕ → Rudp → Rudp
smoothed s v r = record r {
  rx_srtt = pos s;
  rx_rttval = pos v;
  rx_rto = bound r.rx_min_rto (s + max r.interval (v * 4)) rto_max;
}

set_rto-smoothed :
    (s v : ℕ) (r : Rudp)
    → r.rx_srtt ≡ pos s
    → r.rx_rttval ≡ pos v
    → s < 2 ^ 28
    → v < 2 ^ 28
    → IsModerate r.interval
    → set_rto r ≡ smoothed s v r
unfolding set_rto
set_rto-smoothed s v r es ev hs hv hi = ground arith

sample-later :
    (s v t : ℕ) (r : Rudp)
    → r.rx_srtt ≡ pos s
    → r.rx_rttval ≡ pos v
    → 0 < v
    → IsModerate s
    → IsModerate v
    → IsModerate t
    → sample (pos t) r ≡ record r {
      rx_srtt = pos (max 1 ((7 * s + t) / 8));
      rx_rttval = pos ((3 * v + distance s t) / 4);
    }
unfolding sample
sample-later s v t r es ev h hs hv ht =
    rw (es, ev, lt→not_== v h, smoothed_val_lem v s t hv hs ht, smoothed_srtt_lem s t hs ht)

-- A later sample `t`, where no number involved reaches 2 ^ 27: the deviation becomes a quarter of
-- three times the old one plus the distance of the sample from the average, the average an eighth
-- of seven times the old one plus the sample, but 1 at least, and the timeout their sum, with the
-- deviation fourfold or the flush interval if that is larger, within its bounds. Nothing else
-- changes.
pub update_rto_smooths :
    (s v t : ℕ) (r : Rudp)
    → r.rx_srtt ≡ pos s
    → r.rx_rttval ≡ pos v
    → 0 < v
    → IsModerate s
    → IsModerate v
    → IsModerate t
    → IsModerate r.interval
    → update_rto (pos t) r ≡ smoothed (max 1 ((7 * s + t) / 8)) ((3 * v + distance s t) / 4) r
unfolding update_rto
update_rto_smooths s v t r es ev h hs hv ht hi = rw (sample-later s v t r es ev h hs hv ht) (
    set_rto-smoothed (max 1 ((7 * s + t) / 8)) ((3 * v + distance s t) / 4) after refl refl
      (ground arith) (omega arith) hi)
  where
    after : Rudp
    after = record r {
      rx_srtt = pos (max 1 ((7 * s + t) / 8));
      rx_rttval = pos ((3 * v + distance s t) / 4);
    }

-- Where the deviation is still 0, a sample `t` below 2 ^ 27, as the flush interval is, becomes the
-- average and half of it the deviation; the timeout is computed from them as for a later sample,
-- and nothing else changes.
pub update_rto_starts :
    (t : ℕ) (r : Rudp)
    → r.rx_rttval ≡ pos 0
    → IsModerate t
    → IsModerate r.interval
    → update_rto (pos t) r ≡ smoothed t (t / 2) r
unfolding update_rto sample
update_rto_starts t r ev ht hi = ground arith
