-- ===== src/Log/Record.antt =====
-- include/bc/log/record.hpp, and `level_string` of src/log/formatter.cpp.
use bc.Prelude.{ℕ, List, [], ◌∷◌, Option, Bytes, Bool, codes, ltb, get_elem?}

pub data Level : Type 0 where
  debug info warning error fatal : Level

-- `std::to_underlying`.
abbrev pub to_underlying : Level → ℕ
to_underlying Level.debug = 0
to_underlying Level.info = 1
to_underlying Level.warning = 2
to_underlying Level.error = 3
to_underlying Level.fatal = 4

-- `operator<`, rewritten by the language from `operator<=>`.
abbrev pub level_lt : Level → Level → Bool
level_lt l r = ltb (to_underlying l) (to_underlying r)

-- A source location, as far as it is printed.
pub record Location : Type 0 where
  pub file_name : Bytes
  pub line : ℕ

pub record Record : Type 0 where
  pub timestamp : ℕ
  pub lv : Level
  pub topic : Bytes
  pub tid : ℕ
  pub location : Location
  pub message : Bytes

abbrev pub levels : List Bytes
levels = codes "DEBUG" ∷ codes "INFO" ∷ codes "WARNING" ∷ codes "ERROR" ∷ codes "FATAL" ∷ []

-- `levels[std::to_underlying(level)]`; `none` would be a read past the array.
unfoldable pub level_string : Level → Option Bytes
level_string l = get_elem? levels (to_underlying l)
