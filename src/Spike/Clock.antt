-- ===== src/Spike/Clock.antt =====
-- spikes/b1-ipc-spike/src/main.rs: `started_at`, as the clock has it and as texts compare.
use brp_spec.Base.{ℕ, ◌^◌, ◌≤◌, ◌<◌, ◌≡◌, ◌↔◌, true, arith}
use brp_spec.Base.TextOrder.{text_leb, text_leb-show}
use brp_spec.Spike.{now_iso8601}

-- Two clocks that are read between 10^9 and 10^10 seconds after the epoch, that is from September
-- 2001 on and for more than two centuries: their `started_at` compare as texts exactly as the
-- seconds compare as numbers.
pub now_iso8601-le_iff :
    (a b : ℕ)
    → 10 ^ 9 ≤ a
    → a < 10 ^ 10
    → 10 ^ 9 ≤ b
    → b < 10 ^ 10
    → (text_leb (now_iso8601 a) (now_iso8601 b) ≡ true) ↔ (a ≤ b)
unfolding now_iso8601
now_iso8601-le_iff a b la ha lb hb = rw (text_leb-show a b "Z" la ha lb hb) (ground arith)
