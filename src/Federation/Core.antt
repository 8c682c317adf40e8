-- ===== src/Federation/Core.antt =====
-- packages/nexcraft/nexcraft/core and the records of connection/management.py and
-- connection/pooled.py. Configuration values (`Any`) are a type parameter. Times are whole
-- milliseconds. `cancel`, an event, is observed by the stream and so is no field here.
use nexcraft.Base.{
  ℕ, String, Option, none, List, [], str_eq, if◌then◌else◌, Result, ok, err, value_error,
}
use nexcraft.Base.Dict.{Dict}

pub record QueryContext : Type 0 where
  pub tenant_id : String
  pub query_id : String
  pub trace_id : Option String
  pub parent_span_id : Option String
  pub deadline : Option ℕ
  pub max_rows : Option ℕ
  pub max_bytes : Option ℕ
  pub target_partitions : ℕ
  pub batch_size_hint : ℕ
  pub tags : List (String × String)

-- `__post_init__` of QueryContext: the checks of the constructor.
unfoldable pub checked : QueryContext → Result QueryContext
checked ctx =
    if str_eq ctx.tenant_id ""
    then err value_error
    else if str_eq ctx.query_id ""
    then err value_error
    else ok ctx

-- A context with the defaults of the dataclass.
abbrev pub context : String → String → QueryContext
context tenant_id query_id = record {
  tenant_id = tenant_id;
  query_id = query_id;
  trace_id = none;
  parent_span_id = none;
  deadline = none;
  max_rows = none;
  max_bytes = none;
  target_partitions = 4;
  batch_size_hint = 8192;
  tags = [];
}

pub record SourceDescriptor (V : Type 0) : Type 0 where
  pub source_id : String
  pub kind : String
  pub display_name : String
  pub tenant_id : String
  pub config : Dict V
  pub tags : Dict V

pub record ConnectionDetails (V : Type 0) : Type 0 where
  pub source_id : String
  pub tenant_id : String
  pub kind : String
  pub display_name : String
  pub config : Dict V
  pub secret_ref : Option String
  pub tags : Dict V

-- The fields that the subclass `PooledConnectionHandle` adds. `raw` is the identity of the driver's
-- connection object.
pub record PoolSlot : Type 0 where
  pub raw : ℕ
  pub pool_id : String

-- A `ConnectionHandle`; `pooled` is there when it is a `PooledConnectionHandle`.
pub record ConnectionHandle : Type 0 where
  pub source_id : String
  pub kind : String
  pub pooled : Option PoolSlot
