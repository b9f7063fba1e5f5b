-- ===== src/Config.antt =====
-- internal/config: the tables that the scheduler reads. A time of day is walked byte by byte, so
-- it is a list of bytes; every other text is only compared.
pub mod Clock
mod Tests
use portapixel.Prelude.{String, List, Bytes}

-- The [[schedule]] table. The rule of a fleet manifest (internal/manifest) has the same fields.
pub record Rule : Type 0 where
  pub playlist : String
  pub days : List String
  pub start : Bytes
  pub end : Bytes

-- The keys on_time, off_time and power_days of [display]. The screen rule of a fleet manifest has
-- the same three.
pub record ScreenRule : Type 0 where
  pub on_time : Bytes
  pub off_time : Bytes
  pub days : List String

-- What the scheduler reads of the configuration: [display], [playback] default_playlist and
-- [[schedule]].
pub record Config : Type 0 where
  pub display : ScreenRule
  pub default_playlist : String
  pub schedule : List Rule
