-- ===== src/Io/Storage.antt =====
-- pkg/io/storage.go: the storage that the formats read and write. `S` is its state.
use xtable_go.Prelude.{◌/◌, String, Bool, List, Option}
use xtable_go.Prelude.Int.{ℤ, pos, negsuc}
use xtable_go.Prelude.Results.{Result}

-- a time is the nanoseconds since the epoch
pub record FileInfo : Type 0 where
  pub path : String
  pub size : ℤ
  pub mod_time : ℤ
  pub is_dir : Bool

-- Time.UnixMilli of package time: the milliseconds since the epoch, rounded down
abbrev pub unix_milli : ℤ → ℤ
unix_milli (pos n) = pos (n / 1000000)
unix_milli (negsuc n) = negsuc (n / 1000000)

-- reading and listing leave the state alone; a write gives its error, if any
pub record Storage (S : Type 0) : Type 0 where
  pub read : String → S → Result String
  pub write : String → String → S → S × Option String
  pub list : String → S → Result (List FileInfo)
  pub exists : String → S → Result Bool
  pub delete : String → S → S × Option String
