-- ===== src/Aegc1/Parser/Limit.antt =====
-- The depth limit that a source sets for nested patterns (frontend/parser.c).
use nullprt.Aegc1.Parser.{depth_key, nested_depth_limit, read_digits}
use nullprt.Base.{
  drop, starts_with, ◌-◌, length, ◌+◌, leb, ◌*◌, ltb, ◌&&◌, if◌then◌else◌, arith, Bool, ◌^◌, ◌<◌, ℕ,
  Bytes, [], ◌∷◌,
}
use nullprt.Aegc1.Cursor.{u32}

read_digits-lt : (v : ℕ) (s : Bytes) → v < 2 ^ 32 → read_digits v s < 2 ^ 32
unfolding read_digits
read_digits-lt v [] h = h
read_digits-lt v (c ∷ s) h =
    let w = u32 (v * 10 + (c - b'0')) in
    let rest = read_digits-lt w s (omega arith) in
    step (leb b'0' c && leb c b'9') (read_digits w s) rest
  where
    step : (b : Bool) (r : ℕ) → r < 2 ^ 32 → (if b then r else v) < 2 ^ 32
    step b r k = ground arith

-- Whatever the source holds, the limit is a positive `uint32_t`.
pub nested_depth_limit_bounds :
    (src : Bytes) → (0 < nested_depth_limit src) × (nested_depth_limit src < 2 ^ 32)
unfolding nested_depth_limit
nested_depth_limit_bounds [] = omega arith
nested_depth_limit_bounds (c ∷ s) =
    step (leb (length (c ∷ s)) 21) (starts_with depth_key (c ∷ s)) _ _
      (read_digits-lt 0 (drop 21 (c ∷ s)) (omega arith)) (nested_depth_limit_bounds s)
  where
    step :
        (short found : Bool) (v later : ℕ)
        → v < 2 ^ 32
        → (0 < later) × (later < 2 ^ 32)
        → let r = if short then 16 else if found && ltb 0 v then v else later in
          (0 < r) × (r < 2 ^ 32)
    step short found v later h k = ground arith
