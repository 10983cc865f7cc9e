-- ===== src/Rudp/Config.antt =====
-- The settings of rudp.go: ReserveBytes, SetMtu, WndSize, NoDelay, and ReleaseTX.
pub mod Bounds
use rudp_go.Common.{
  ℕ, ◌%◌, ◌^◌, [], replicate, Bool, true, false, ◌||◌, leb, ltb, ◌==◌, if◌then◌else◌, ℤ, pos,
  negsuc, ltb_ℤ, sub32, pos_part,
}
use rudp_go.Wire.{overhead}
use rudp_go.Rudp.{Rudp, rto_ndl, rto_min}

-- A negative size is refused.
unfoldable pub reserve_bytes : ℤ → Rudp → Bool × Rudp
reserve_bytes (negsuc n) r = (false, r)
reserve_bytes (pos reserve) r = if leb (sub32 r.mtu overhead) reserve then (false, r) else (
  true,
  record r { reserved = reserve; mss = sub32 (sub32 r.mtu overhead) (reserve % 2 ^ 32) },
)

-- `make` never returns nil; `reserved` is never negative.
pub set_mtu : ℤ → Rudp → ℤ × Rudp
set_mtu (negsuc n) r = (negsuc 0, r)
set_mtu (pos mtu) r =
    if ltb mtu 50 || ltb mtu overhead
    then (negsuc 0, r)
    else if leb (sub32 r.mtu overhead) r.reserved
    then (negsuc 0, r)
    else (
      pos 0,
      record r {
        mtu = mtu % 2 ^ 32;
        mss = sub32 (sub32 (mtu % 2 ^ 32) overhead) (r.reserved % 2 ^ 32);
        buffer = replicate mtu 0;
      },
    )

abbrev pub positive_or : ℤ → ℕ → ℕ
positive_or n old = if ltb_ℤ (pos 0) n then pos_part n % 2 ^ 32 else old

pub wnd_size : ℤ → ℤ → Rudp → Rudp
wnd_size sndwnd rcvwnd r = record r {
  snd_wnd = positive_or sndwnd r.snd_wnd;
  rcv_wnd = positive_or rcvwnd r.rcv_wnd;
}

abbrev pub set_no_delay : ℤ → Rudp → Rudp
set_no_delay (negsuc n) r = r
set_no_delay (pos n) r = record r {
  no_delay = n % 2 ^ 32;
  rx_min_rto = if n == 0 then rto_min else rto_ndl;
}

abbrev pub set_interval : ℤ → Rudp → Rudp
set_interval (negsuc n) r = r
set_interval (pos n) r = record r {
  interval = if ltb 5000 n then 5000 else if ltb n 10 then 10 else n;
}

abbrev pub set_resend : ℤ → Rudp → Rudp
set_resend (negsuc n) r = r
set_resend (pos n) r = record r { fast_resend = n % 2 ^ 32 }

abbrev pub set_no_cwnd : ℤ → Rudp → Rudp
set_no_cwnd (negsuc n) r = r
set_no_cwnd (pos n) r = record r { no_cwnd = n % 2 ^ 32 }

pub no_delay : ℤ → ℤ → ℤ → ℤ → Rudp → Rudp
no_delay nodelay interval resend nc r =
    set_no_cwnd nc (set_resend resend (set_interval interval (set_no_delay nodelay r)))

pub release_tx : Rudp → Rudp
release_tx r = record r { snd_buf = []; snd_queue = [] }
