-- ===== src/Message/Opts.antt =====
-- src/opts.rs: the command line as the program sees it once it is parsed.
use iperf3_rust.Common.{ℕ, String, Bool, Option}

pub record CommonOpts : Type 0 where
  pub port : ℕ  -- u16
  pub debug : Bool
  pub bind : Option String

pub record ServerOpts : Type 0 where
  pub server : Bool

pub record ClientOpts : Type 0 where
  pub client : Option String
  pub time : ℕ
  pub bytes : Option ℕ
  pub length : Option ℕ
  pub parallel : ℕ  -- u16
  pub reverse : Bool
  pub bidir : Bool
  pub window : Option ℕ
  pub set_mss : Option ℕ
  pub no_delay : Bool
  pub prefer_ipv6 : Bool
  pub interval : Option ℕ

pub record Opts : Type 0 where
  pub common : CommonOpts
  pub server : ServerOpts
  pub client : ClientOpts
