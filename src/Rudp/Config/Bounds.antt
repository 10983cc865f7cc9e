-- ===== src/Rudp/Config/Bounds.antt =====
-- The settings of rudp.go and the sizes of a segment, a packet and the buffer.
use rudp_go.Common.{
  ℕ, ◌+◌, ◌-◌, ◌^◌, ◌≤◌, ◌<◌, ◌≡◌, refl, [], replicate, length-replicate, ℤ, pos, negsuc, ltb,
  if◌then◌else◌, ltb→lt, Bool-cases, inl, inr, true, false, arith,
}
use rudp_go.Wire.{overhead}
use rudp_go.Rudp.{Rudp, mtu_limit}
use rudp_go.Rudp.Sized.{Sized, SizedAt}
use rudp_go.Rudp.Config.{reserve_bytes, set_mtu, wnd_size, no_delay, release_tx}

-- Nothing is queued or in flight.
abbrev pub IsIdle : Rudp → Type 0
IsIdle r = (r.snd_queue ≡ []) × (r.snd_buf ≡ [])

module _ (mtu : ℕ) (r : Rudp) (v : SizedAt mtu r) where
  pub wnd_size-Sized : (sndwnd rcvwnd : ℤ) → SizedAt mtu (wnd_size sndwnd rcvwnd r)
  unfolding wnd_size
  wnd_size-Sized sndwnd rcvwnd = ground arith

  pub no_delay-Sized :
      (nodelay interval resend nc : ℤ) → SizedAt mtu (no_delay nodelay interval resend nc r)
  unfolding no_delay
  no_delay-Sized nodelay interval resend nc = ground arith

  pub release_tx-Sized : SizedAt mtu (release_tx r)
  unfolding release_tx
  release_tx-Sized = ground arith

-- The settings when `n` bytes are reserved, or the MTU is `m`: what header and reserve leave is
-- for data.
abbrev pub with_reserve : ℕ → Rudp → Rudp
with_reserve n r = record r { reserved = n; mss = r.mtu - (n + overhead) }

abbrev pub with_mtu : ℕ → Rudp → Rudp
with_mtu m r = record r { mtu = m; mss = m - (r.reserved + overhead); buffer = replicate m 0 }

not_ltb→le : (a b : ℕ) → ltb a b ≡ false → b ≤ a
not_ltb→le a b h = ground arith

reserve_bytes-takes :
    (n : ℕ) (r : Rudp)
    → Sized r
    → r.mtu ≤ overhead + mtu_limit
    → n + overhead < r.mtu
    → reserve_bytes (pos n) r ≡ (true, with_reserve n r)
unfolding reserve_bytes
reserve_bytes-takes n r v h fits = ground arith

reserve_bytes-refuses :
    (n : ℕ) (r : Rudp)
    → Sized r
    → r.mtu ≤ overhead + mtu_limit
    → r.mtu ≤ n + overhead
    → reserve_bytes (pos n) r ≡ (false, r)
unfolding reserve_bytes
reserve_bytes-refuses n r v h large = ground arith

set_mtu-takes :
    (m : ℕ) (r : Rudp)
    → Sized r
    → r.mtu ≤ overhead + mtu_limit
    → 50 ≤ m
    → m ≤ overhead + mtu_limit
    → r.reserved + overhead < m
    → set_mtu (pos m) r ≡ (pos 0, with_mtu m r)
unfolding set_mtu
set_mtu-takes m r v h enough k fits = ground arith

pub set_mtu-refuses : (m : ℕ) (r : Rudp) → m < 50 → set_mtu (pos m) r ≡ (negsuc 0, r)
unfolding set_mtu
set_mtu-refuses m r small = ground arith

-- ReserveBytes on an idle RUDP with sound sizes and an MTU of 1524 at most: a size that leaves a
-- byte of data in the MTU is taken, and the rest of the MTU is the segment size; any larger size is
-- refused, and nothing changes. The sizes are sound either way.
pub reserve_bytes_lem :
    (n : ℕ) (r : Rudp)
    → Sized r
    → IsIdle r
    → r.mtu ≤ overhead + mtu_limit
    → (reserve_bytes (pos n) r
        ≡ (if ltb (n + overhead) r.mtu then (true, with_reserve n r) else (false, r)))
      × Sized (reserve_bytes (pos n) r).1
reserve_bytes_lem n r v idle h = elim (Bool-cases (ltb (n + overhead) r.mtu)) [
  | inl fits ↦
      rw (fits, reserve_bytes-takes n r v h (ltb→lt _ _ fits))
        (
          refl,
          record {
            room = omega (arith, ltb→lt _ _ fits);
            some_data = omega (arith, ltb→lt _ _ fits);
            pooled = omega arith;
            stored = v.stored;
            queued = rw idle.0 tt;
            sent = rw idle.1 tt;
          },
        )
  | inr large ↦ rw (large, reserve_bytes-refuses n r v h (not_ltb→le _ _ large)) (refl, v)
]

-- SetMtu on an idle RUDP with sound sizes and an MTU of 1524 at most, with a size of at most 1524
-- that holds the reserve, the header and a byte of data: from 50 on it is taken, with a new buffer;
-- below it is refused, and nothing changes. The sizes are sound either way.
pub set_mtu_lem :
    (m : ℕ) (r : Rudp)
    → Sized r
    → IsIdle r
    → r.mtu ≤ overhead + mtu_limit
    → m ≤ overhead + mtu_limit
    → r.reserved + overhead < m
    → (set_mtu (pos m) r ≡ (if ltb m 50 then (negsuc 0, r) else (pos 0, with_mtu m r)))
      × Sized (set_mtu (pos m) r).1
set_mtu_lem m r v idle h k fits = elim (Bool-cases (ltb m 50)) [
  | inl small ↦ rw (small, set_mtu-refuses m r (ltb→lt _ _ small)) (refl, v)
  | inr enough ↦
      rw (enough, set_mtu-takes m r v h (not_ltb→le _ _ enough) k fits)
        (
          refl,
          record {
            room = omega arith;
            some_data = omega arith;
            pooled = omega arith;
            stored = length-replicate {A = ℕ} m 0;
            queued = rw idle.0 tt;
            sent = rw idle.1 tt;
          },
        )
]

-- The test of the reserve is made against the old MTU. On a RUDP with sound sizes and an MTU of
-- 1524 at most, a new MTU of 50 or more that does not hold reserve and header is accepted, and the
-- segment size wraps: with reserve and header it makes 2 ^ 32 more than the MTU.
pub set_mtu_wraps :
    (m : ℕ) (r : Rudp)
    → Sized r
    → r.mtu ≤ overhead + mtu_limit
    → 50 ≤ m
    → m < r.reserved + overhead
    → let (code, r') = set_mtu (pos m) r in
      (code ≡ pos 0) × (r'.mtu ≡ m) × (r'.reserved + overhead + r'.mss ≡ m + 2 ^ 32)
unfolding set_mtu
set_mtu_wraps m r v h enough small = ground arith
