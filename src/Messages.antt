-- ===== src/Messages.antt =====
-- src/app/pipeline_types.h: what the threads send each other. A `char` array is the text before its
-- NUL.
use flower_exchange.Base.{ℕ, Bool, [], ℤ, pos}
use flower_exchange.Types.{Text}
use flower_exchange.Doubles.{Doubles}

pub record InboundOrderMsg (doubles : Doubles) : Type 0 where
  pub end_of_stream : Bool
  pub coid : Text
  pub instrument : Text
  pub side : ℤ
  pub quantity : ℤ
  pub price : doubles.Double
  pub seq : ℕ

pub record OutboundReportMsg : Type 0 where
  pub oid : Text
  pub oid_len : ℕ
  pub coid : Text
  pub coid_len : ℕ
  pub instrument : Text
  pub instrument_len : ℕ
  pub side : ℤ
  pub exec_status : Text
  pub exec_status_len : ℕ
  pub quantity : ℤ
  pub price_text : Text
  pub price_text_len : ℕ
  pub reason : Text
  pub reason_len : ℕ
  pub timestamp : Text
  pub timestamp_len : ℕ
  pub seq : ℕ

-- `OutboundReportMsg{}`.
abbrev pub empty_outbound : OutboundReportMsg
empty_outbound = record {
  oid = [];
  oid_len = 0;
  coid = [];
  coid_len = 0;
  instrument = [];
  instrument_len = 0;
  side = pos 0;
  exec_status = [];
  exec_status_len = 0;
  quantity = pos 0;
  price_text = [];
  price_text_len = 0;
  reason = [];
  reason_len = 0;
  timestamp = [];
  timestamp_len = 0;
  seq = 0;
}
