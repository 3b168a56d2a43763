-- ===== src/Event.antt =====
-- The records that the components exchange: src/filter.rs `MessageDirection` and `DisplayMessage`,
-- and src/decode.rs `FieldSummary`, `DataColumn`, `EventDetail`, `Output`.
-- A `String` is the list of its characters' code points.
use tapgres.Prelude.{ℕ, Option, List}
use tapgres.Net.{IpAddr}

abbrev pub Text : Type 0
Text = List ℕ

-- std::net::SocketAddr
pub record SocketAddr : Type 0 where
  pub ip : IpAddr
  pub port : ℕ

pub data MessageDirection : Type 0 where
  frontend_to_backend backend_to_frontend : MessageDirection

pub record DisplayMessage : Type 0 where
  pub timestamp : Text
  pub rendered : Text
  pub client : SocketAddr
  pub direction : MessageDirection
  pub kind : Text
  pub text : Text

-- `format_code` is the bit pattern of the source's `i16`.
pub record FieldSummary : Type 0 where
  pub name : Text
  pub type_oid : ℕ
  pub format_code : ℕ

pub record DataColumn : Type 0 where
  pub name : Text
  pub type_oid : ℕ
  pub value : Text

pub data EventDetail : Type 0 where
  row_description : List FieldSummary → EventDetail
  data_row : List DataColumn → EventDetail

pub data Output : Type 0 where
  message : DisplayMessage → Option EventDetail → Output
  line : Text → Output
  status : Text → Output
