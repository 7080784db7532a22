-- ===== src/Core/Config.antt =====
-- crates/bolty-core/src/config.rs: the configuration that the console, REST and the screen share.
use bolty_rs.Prelude.{Bool, false, Option, none}
use bolty_rs.Prelude.Text.{Text}
use bolty_rs.Core.Keys.{AesKey, CardKeys}

pub record BoltyConfig : Type 0 where
  pub lnurl : Option Text
  pub issuer_name : Option Text
  pub pending_keys : Option CardKeys
  pub pending_issuer : Option AesKey
  pub rest_read_token : Option Text
  pub rest_write_token : Option Text
  pub force_unsafe : Bool

abbrev pub default_config : BoltyConfig
default_config = record {
  lnurl = none;
  issuer_name = none;
  pending_keys = none;
  pending_issuer = none;
  rest_read_token = none;
  rest_write_token = none;
  force_unsafe = false;
}
