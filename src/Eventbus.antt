-- ===== src/Eventbus.antt =====
-- core/eventbus/eventbus.go: the event that travels between the parts of a node. Payloads are bytes;
-- a nil metadata map is the empty one, which every read in the code treats alike.
use baran_os.Base.{ℕ, GoString, Dict}

pub record Event : Type 0 where
  pub id : GoString
  pub type : GoString
  pub source_node : GoString
  pub source_agent : GoString
  pub target_agent : GoString
  pub workflow_id : GoString
  pub correlation_id : GoString
  pub timestamp : ℕ
  pub metadata : Dict GoString
  pub payload : GoString
