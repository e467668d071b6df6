-- ===== src/HugeTlb/Left/Overlong.antt =====
-- `left_set_lens` with a length near 2^64, whose test against the capacity of the page wraps around.
use yaoi.Crates.{Crates}
