-- ===== src/Field/Types.antt =====
-- apps/field/lib/types.ts.
use ironman.Json.{Json}
use ironman.Prelude.{ℕ, String, Option, List}

pub data JobKind : Type 0 where
  pickup delivery : JobKind

pub data JobStatus : Type 0 where
  pending en_route arrived done failed : JobStatus

pub record JobLine : Type 0 where
  pub garment_type : String
  pub garment_type_name : String
  pub declared_qty : ℕ

pub record JobCard : Type 0 where
  pub id : String
  pub route_day : String
  pub date : String
  pub order : String
  pub order_ref : String
  pub order_status : String
  pub payment_status : String
  pub kind : JobKind
  pub sequence : ℕ
  pub status : JobStatus
  pub slot_start : Option String
  pub slot_end : Option String
  pub attempt_no : ℕ
  pub customer_name : String
  pub customer_phone : String
  pub apartment_name : String
  pub address : String
  pub special_instructions : String
  pub lines : List JobLine
  pub bag_count : ℕ

pub record DeclaredLine : Type 0 where
  pub garment_type : String
  pub qty : ℕ

pub data OpType : Type 0 where
  job_start job_arrive job_complete job_fail : OpType

-- `Record<string, unknown>`, in insertion order.
abbrev pub Payload : Type 0
Payload = List (String × Json)

pub record QueuedOp : Type 0 where
  pub client_op_id : String
  pub op_type : OpType
  pub job_id : String
  pub payload : Payload
  pub client_ts : String

pub record QueuedProof : Type 0 where
  pub id : String
  pub job_id : String
  pub uri : String
  pub captured_at : String

pub record SyncIssue : Type 0 where
  pub id : String
  pub job_id : String
  pub order_ref : String
  pub what : String
  pub message : String
  pub at : String

pub data OpStatus : Type 0 where
  applied conflict rejected : OpStatus

pub record OfflineOpResult : Type 0 where
  pub client_op_id : String
  pub op_type : String
  pub status : OpStatus
  pub result_detail : String
