-- ===== src/Rudp/Sized.antt =====
-- The sizes that keep `flush` and `Input` inside their buffers; a new RUDP has them.
use rudp_go.Common.{ℕ, ◌+◌, ◌≤◌, ◌<◌, ◌≡◌, List, length, All, arith, ◌∙◌, length-replicate}
use rudp_go.Wire.{Segment, overhead}
use rudp_go.Rudp.{Rudp, new_rudp, mtu_limit}

abbrev pub AtMost : ℕ → List Segment → Type 0
AtMost n = All (λ s. length s.payload ≤ n)

pub record Sized (r : Rudp) : Type 0 where
  pub room : r.reserved + overhead + r.mss ≡ r.mtu
  pub some_data : 0 < r.mss
  pub pooled : r.mss ≤ mtu_limit
  pub stored : length r.buffer ≡ r.mtu
  pub queued : AtMost r.mss r.snd_queue
  pub sent : AtMost r.mss r.snd_buf

pub new_rudp-Sized : (conv : ℕ) → Sized (new_rudp conv)
unfolding new_rudp
new_rudp-Sized conv = omega (arith, length-replicate {A = ℕ} 1400 0)

-- Another send buffer of segments that fit.
pub with_sent :
    {r : Rudp} (buf : List Segment)
    → Sized r
    → AtMost r.mss buf
    → Sized (record r { snd_buf = buf })
with_sent buf v h = record {
  room = v.room;
  some_data = v.some_data;
  pooled = v.pooled;
  stored = v.stored;
  queued = v.queued;
  sent = h;
}

-- What has the sizes of a sound RUDP is sound.
pub record SameSizes (r r' : Rudp) : Type 0 where
  pub mtu : r'.mtu ≡ r.mtu
  pub mss : r'.mss ≡ r.mss
  pub reserved : r'.reserved ≡ r.reserved
  pub buffer : length r'.buffer ≡ length r.buffer
  pub snd_queue : r'.snd_queue ≡ r.snd_queue
  pub snd_buf : r'.snd_buf ≡ r.snd_buf

pub SameSizes-Sized : {r r' : Rudp} → SameSizes r r' → Sized r → Sized r'
SameSizes-Sized {r} {r'} e v = record {
  room = omega arith;
  some_data = omega arith;
  pooled = omega arith;
  stored = omega arith;
  queued = rw (e.mss, e.snd_queue) v.queued;
  sent = rw (e.mss, e.snd_buf) v.sent;
}

-- Sound sizes at a given MTU.
abbrev pub SizedAt : ℕ → Rudp → Type 0
SizedAt mtu r = Sized r × (r.mtu ≡ mtu)

pub SameSizes-SizedAt : (mtu : ℕ) {r r' : Rudp} → SameSizes r r' → SizedAt mtu r → SizedAt mtu r'
SameSizes-SizedAt mtu e v = (SameSizes-Sized e v.0, e.mtu ∙ v.1)
