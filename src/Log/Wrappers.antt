-- ===== src/Log/Wrappers.antt =====
-- include/bc/log/log.hpp: the calls that log at a level of their own, for a given logger or for the
-- default one (src/log/logger.cpp), a static object whose address is `default_logger`.
pub mod Filter
use bc.Prelude.{ℕ, Option, none, some, Result}
use bc.Log.Record.{Level, Record}
use bc.Log.Worker.{Worker, log}

module _ (default_logger : ℕ) where
  abbrev pub logger_of : Option ℕ → ℕ
  logger_of (some l) = l
  logger_of none = default_logger

  -- The record's level is that of the call.
  abbrev at_level : Level → Option ℕ → Record → Worker → Result Worker
  at_level lv logger r w = log (logger_of logger) (record r { lv = lv }) w

  unfoldable pub debug : Option ℕ → Record → Worker → Result Worker
  debug logger r w = at_level Level.debug logger r w

  unfoldable pub info : Option ℕ → Record → Worker → Result Worker
  info logger r w = at_level Level.info logger r w

  unfoldable pub warning : Option ℕ → Record → Worker → Result Worker
  warning logger r w = at_level Level.warning logger r w

  unfoldable pub error : Option ℕ → Record → Worker → Result Worker
  error logger r w = at_level Level.error logger r w

  unfoldable pub fatal : Option ℕ → Record → Worker → Result Worker
  fatal logger r w = at_level Level.fatal logger r w
