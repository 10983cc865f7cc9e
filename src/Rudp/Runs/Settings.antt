-- ===== src/Rudp/Runs/Settings.antt =====
-- The settings at concrete values.
use rudp_go.Common.{◌+◌, ◌^◌, ◌≡◌, refl, arith, pos}
use mathlib.Core.Path.{subst, ap}
use mathlib.Core.Bool.{Bool}
use rudp_go.Wire.{overhead}
use rudp_go.Rudp.{Rudp, new_rudp}
use rudp_go.Rudp.Sized.{Sized, new_rudp-Sized}
use rudp_go.Rudp.Config.{set_mtu}
use rudp_go.Rudp.Config.Bounds.{
  with_reserve, with_mtu, reserve_bytes_lem, set_mtu_lem, set_mtu_wraps,
}
use rudp_go.Rudp.Runs.{small}

set_mtu_lem_example :
    (set_mtu (pos 576) small ≡ (pos 0, with_mtu 576 small)) × Sized (set_mtu (pos 576) small).1
set_mtu_lem_example =
    set_mtu_lem 576 small (omega arith) (refl, refl) (omega arith) (omega arith) (omega arith)

-- A thousand bytes reserved in an MTU of 1400, and then an MTU of 500.
abbrev reserving : Rudp
reserving = with_reserve 1000 (new_rudp 7)

reserving-Sized : Sized reserving
unfolding new_rudp
reserving-Sized =
    let taken = reserve_bytes_lem 1000 (new_rudp 7) (new_rudp-Sized 7) (refl, refl) (omega arith) in
    subst Sized (ap (λ (x : Bool × Rudp). x.1) taken.0) taken.1

set_mtu_wraps_example :
    let (code, r') = set_mtu (pos 500) reserving in
    (code ≡ pos 0) × (r'.mtu ≡ 500) × (r'.reserved + overhead + r'.mss ≡ 500 + 2 ^ 32)
unfolding new_rudp
set_mtu_wraps_example =
    set_mtu_wraps 500 reserving reserving-Sized (omega arith) (omega arith) (omega arith)
