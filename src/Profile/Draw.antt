-- ===== src/Profile/Draw.antt =====
-- The random draws of the `generate_sec_ch_ua` functions of src/profile. The crate `rand` answers
-- `random_range(0..n)` by a number below `n`, so an index is never out of its array.
use quik.Base.{ℕ, ◌<◌, String, List, get_elem?, unwrap_or}

pub record Draw : Type 0 where
  pub brand : ℕ
  pub version : ℕ
  pub position : ℕ

-- The ranges of the three calls.
pub record IsInRange (d : Draw) : Type 0 where
  pub brand_lt : d.brand < 5
  pub version_lt : d.version < 3
  pub position_lt : d.position < 3

-- `array[index]`, of an index in range.
abbrev pub pick : List String → ℕ → String
pick array index = unwrap_or (get_elem? array index) ""
