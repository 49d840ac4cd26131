-- ===== src/Db/Rows.antt =====
-- The tables of the database: entities/*.ts, outbox/ddl.ts, broker/effects.ts, migrations/*.ts.
-- A table is the list of its rows in insertion order. Ids are plain numbers, since the text form
-- that the driver gives a bigint is only compared and converted back. Columns that no modelled
-- statement reads are left out.
use course_project.Base.{ℕ, Option, List}
use course_project.Base.Text.{Text, codes}
use course_project.Js.{Json}

-- `integer` columns and parameters go up to 2^31 - 1.
abbrev pub int4_max : ℕ
int4_max = 2147483647

pub data UserRole : Type 0 where
  buyer seller : UserRole

pub record User : Type 0 where
  pub id : ℕ
  pub email : Text
  pub role : UserRole
  pub balance_cents : ℕ

pub record Product : Type 0 where
  pub id : ℕ
  pub seller_id : ℕ
  pub name : Text
  pub description : Text
  pub price : ℕ
  pub stock : ℕ

pub data OrderStatus : Type 0 where
  new paid shipped cancelled : OrderStatus

abbrev pub status_text : OrderStatus → Text
status_text new = codes "new"
status_text paid = codes "paid"
status_text shipped = codes "shipped"
status_text cancelled = codes "cancelled"

pub record Order : Type 0 where
  pub id : ℕ
  pub buyer_id : ℕ
  pub status : OrderStatus
  pub total : ℕ
  pub created_at : ℕ

pub record OrderItem : Type 0 where
  pub id : ℕ
  pub order_id : ℕ
  pub product_id : ℕ
  pub quantity : ℕ
  pub unit_price : ℕ

pub record Job : Type 0 where
  pub id : ℕ
  pub kind : Text
  pub payload : Json
  pub processed : ℕ
  pub attempts : ℕ
  pub worker_id : Option Text

abbrev pub job_max_attempts : ℕ
job_max_attempts = 5

pub record OutboxRow : Type 0 where
  pub id : ℕ
  pub aggregate_type : Text
  pub aggregate_id : ℕ
  pub type : Text
  pub payload : Json
  pub created_at : ℕ
  pub published_at : Option ℕ
  pub attempts : ℕ

pub record IdempotencyKey : Type 0 where
  pub key : Text
  pub fingerprint : Text
  pub order_id : Option ℕ

pub record ProcessedMessage : Type 0 where
  pub message_id : Text
  pub consumer : Text

pub record OrderPlacedEffect : Type 0 where
  pub event_id : Text
  pub order_id : ℕ

pub record OrderPlacedDelivery : Type 0 where
  pub id : ℕ
  pub event_id : Text

pub record OrderStatusRow : Type 0 where
  pub order_id : ℕ
  pub event_id : ℕ
  pub status : OrderStatus

-- The next value of each identity column. PostgreSQL does not roll these back.
pub record Sequences : Type 0 where
  pub order : ℕ
  pub order_item : ℕ
  pub job : ℕ
  pub outbox : ℕ
  pub delivery : ℕ

pub record Db : Type 0 where
  pub users : List User
  pub products : List Product
  pub orders : List Order
  pub order_items : List OrderItem
  pub jobs : List Job
  pub outbox : List OutboxRow
  pub idempotency_keys : List IdempotencyKey
  pub processed_messages : List ProcessedMessage
  pub order_placed_effects : List OrderPlacedEffect
  pub order_placed_deliveries : List OrderPlacedDelivery
  pub order_status_events : List OrderStatusRow
  pub seq : Sequences
