-- ===== src/Domain/Platform.antt =====
-- What the validators ask of the time and URL packages, whose answers depend on data outside the
-- repository (the time zone database) or on long grammars that the program only calls.
use sbox_manager.Common.{Bool, Option, String}

pub record Url : Type 0 where
  pub scheme : String
  pub host : String
  pub raw_query : String
  pub fragment : String

pub record Platform : Type 0 where
  -- `time.Parse(time.RFC3339, value)` returns no error.
  pub is_rfc3339 : String → Bool
  -- `time.LoadLocation(name)` returns no error.
  pub has_location : String → Bool
  -- `url.Parse(raw)`, and `none` for its error.
  pub parse_url : String → Option Url
