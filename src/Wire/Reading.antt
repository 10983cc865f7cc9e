-- ===== src/Wire/Reading.antt =====
-- The decoder of a header: when it returns, and how much it reads.
use rudp_go.Common.{
  ◌>>=◌, Returns-mono, ℕ, ◌+◌, ◌≤◌, ◌≡◌, List, [], ◌∷◌, length, Outcome, Returns, Returns-bind,
  arith,
}
use rudp_go.Wire.{decode_uint8, decode_uint16, decode_uint32, decode_fields}

-- `k` bytes are read off a packet that holds them.
abbrev pub Reads {ℓ} : {A : Type ℓ} → ℕ → List ℕ → Outcome (A × List ℕ) → Type 0
Reads k packet m = Returns m (λ x. length x.1 + k ≡ length packet)

decode_uint8-Reads : (packet : List ℕ) → 1 ≤ length packet → Reads 1 packet (decode_uint8 packet)
unfolding decode_uint8
decode_uint8-Reads [] h = absurd (omega arith)
decode_uint8-Reads (a ∷ rest) h = omega arith

decode_uint16-Reads : (packet : List ℕ) → 2 ≤ length packet → Reads 2 packet (decode_uint16 packet)
unfolding decode_uint16
decode_uint16-Reads [] h = absurd (omega arith)
decode_uint16-Reads (a ∷ []) h = absurd (omega arith)
decode_uint16-Reads (a ∷ b ∷ rest) h = omega arith

pub decode_uint32-Reads :
    (packet : List ℕ) → 4 ≤ length packet → Reads 4 packet (decode_uint32 packet)
unfolding decode_uint32
decode_uint32-Reads [] h = absurd (omega arith)
decode_uint32-Reads (a ∷ []) h = absurd (omega arith)
decode_uint32-Reads (a ∷ b ∷ []) h = absurd (omega arith)
decode_uint32-Reads (a ∷ b ∷ c ∷ []) h = absurd (omega arith)
decode_uint32-Reads (a ∷ b ∷ c ∷ d ∷ rest) h = omega arith

-- A read of `a` bytes, then one of `b`.
Reads-bind {ℓ κ} :
    {A : Type ℓ} {B : Type κ} (a b n : ℕ) (packet : List ℕ) (m : Outcome (A × List ℕ))
    (f : A × List ℕ → Outcome (B × List ℕ))
    → a + b ≡ n
    → Reads a packet m
    → ((x : A) (rest : List ℕ) → length rest + a ≡ length packet → Reads b rest (f (x, rest)))
    → Reads n packet (m >>= f)
Reads-bind a b n packet m f e h k =
    Returns-bind m f (λ x. length x.1 + a ≡ length packet) (λ x. length x.1 + n ≡ length packet) h
      λ x hx. Returns-mono (f x) _ _ (k x.0 x.1 hx) (λ y hy. omega arith)

pub decode_fields-Reads :
    (packet : List ℕ) → 20 ≤ length packet → Reads 20 packet (decode_fields packet)
unfolding decode_fields
decode_fields-Reads p0 h =
    Reads-bind 1 19 20 p0 (decode_uint8 p0) _ (omega arith) (decode_uint8-Reads p0 (omega arith))
      λ _ p1 h1.
        Reads-bind 1 18 19 p1 (decode_uint8 p1) _ (omega arith)
          (decode_uint8-Reads p1 (omega arith))
          λ _ p2 h2.
            Reads-bind 2 16 18 p2 (decode_uint16 p2) _ (omega arith)
              (decode_uint16-Reads p2 (omega arith))
              λ _ p3 h3.
                Reads-bind 4 12 16 p3 (decode_uint32 p3) _ (omega arith)
                  (decode_uint32-Reads p3 (omega arith))
                  λ _ p4 h4.
                    Reads-bind 4 8 12 p4 (decode_uint32 p4) _ (omega arith)
                      (decode_uint32-Reads p4 (omega arith))
                      λ _ p5 h5.
                        Reads-bind 4 4 8 p5 (decode_uint32 p5) _ (omega arith)
                          (decode_uint32-Reads p5 (omega arith))
                          λ _ p6 h6.
                            Reads-bind 4 0 4 p6 (decode_uint32 p6) _ (omega arith)
                              (decode_uint32-Reads p6 (omega arith)) λ _ p7 h7. omega arith
