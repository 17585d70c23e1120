-- ===== src/Uri.antt =====
-- What the library reads of Ruby's URI objects. Parsing, joining and printing belong to Ruby's `uri`
-- and enter the methods that call them as arguments.
use oauth.Prelude.{ℕ, Bytes, Option}

pub record Uri : Type 0 where
  pub scheme : Option Bytes
  pub host : Option Bytes
  pub port : Option ℕ
  pub path : Option Bytes
  pub query : Option Bytes
