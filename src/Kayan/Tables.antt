-- ===== src/Kayan/Tables.antt =====
-- The tables that src/kayan/kayan.service.ts reads and writes (db/migrations/0016, 0021, 0023, and
-- users and files of 0001). A table is the list of its rows in the order of their insertion; an
-- identity column is drawn from a sequence, which a rollback does not take back.
use kayan_place.Prelude.{ℕ, String, Bool, List, Option}
use kayan_place.Kayan.Dto.{
  OrderStatus, FaultStatus, ServiceStatus, FaultSeverity, ServiceType, ItemType,
}

pub record User : Type 0 where
  pub id : ℕ
  pub name : String
  pub email : Option String
  pub phone : Option String
  pub is_admin : Bool
  pub deleted_at : Option ℕ

pub data FileStatus : Type 0 where
  pending uploaded failed deleted : FileStatus

pub data FilePurpose : Type 0 where
  avatar product_image chat_attachment document : FilePurpose

pub record File : Type 0 where
  pub id : ℕ
  pub object_key : String
  pub original_filename : Option String
  pub mime_type : Option String
  pub purpose : FilePurpose
  pub status : FileStatus

pub record Product : Type 0 where
  pub id : ℕ
  pub title : String
  pub description : String
  pub amount : ℕ
  pub price : ℕ
  pub details : Option String
  pub is_active : Bool
  pub created_by : ℕ
  pub updated_by : ℕ
  pub deleted_at : Option ℕ
  pub created_at : ℕ
  pub updated_at : ℕ

pub data AssetType : Type 0 where
  image file : AssetType

pub record ProductAsset : Type 0 where
  pub id : ℕ
  pub product_id : ℕ
  pub file_id : ℕ
  pub asset_type : AssetType
  pub sort_order : ℕ

-- A row of fault_assets or of gallery_assets.
pub record ItemAsset : Type 0 where
  pub id : ℕ
  pub item_id : ℕ
  pub file_id : ℕ
  pub sort_order : ℕ

pub record Order : Type 0 where
  pub id : ℕ
  pub user_id : ℕ
  pub delivery_address : String
  pub status : OrderStatus
  pub cancelled_at : Option ℕ
  pub created_at : ℕ
  pub updated_at : ℕ

pub record OrderItem : Type 0 where
  pub id : ℕ
  pub order_id : ℕ
  pub product_id : ℕ
  pub quantity : ℕ
  pub unit_price : ℕ

-- A row of order_status_history, fault_status_history or service_status_history.
pub record HistoryEntry (S : Type 0) : Type 0 where
  pub id : ℕ
  pub item_id : ℕ
  pub status : S
  pub changed_by : ℕ
  pub created_at : ℕ

pub record CartItem : Type 0 where
  pub id : ℕ
  pub user_id : ℕ
  pub product_id : ℕ
  pub quantity : ℕ
  pub created_at : ℕ
  pub updated_at : ℕ

pub record Fault : Type 0 where
  pub id : ℕ
  pub user_id : ℕ
  pub title : String
  pub description : String
  pub severity : FaultSeverity
  pub address : String
  pub status : FaultStatus
  pub cancelled_at : Option ℕ
  pub created_at : ℕ
  pub updated_at : ℕ

pub record ServiceOrder : Type 0 where
  pub id : ℕ
  pub user_id : ℕ
  pub service_type : ServiceType
  pub description : String
  pub address : String
  pub status : ServiceStatus
  pub cancelled_at : Option ℕ
  pub created_at : ℕ
  pub updated_at : ℕ

pub record FollowupStep : Type 0 where
  pub id : ℕ
  pub item_type : ItemType
  pub item_id : ℕ
  pub title : String
  pub step_image_file_id : Option ℕ
  pub sort_order : ℕ
  pub created_by : ℕ
  pub created_at : ℕ
  pub updated_at : ℕ

pub record Conversation : Type 0 where
  pub id : ℕ
  pub item_type : ItemType
  pub item_id : ℕ
  pub user_id : ℕ
  pub admin_id : ℕ

pub record FollowupMessage : Type 0 where
  pub id : ℕ
  pub conversation_id : ℕ
  pub sender_id : ℕ
  pub message_text : String
  pub sent_at : ℕ

pub record ProductRating : Type 0 where
  pub id : ℕ
  pub user_id : ℕ
  pub order_id : ℕ
  pub product_id : ℕ
  pub rating_value : ℕ
  pub comment : Option String
  pub created_at : ℕ

pub record ItemRating : Type 0 where
  pub id : ℕ
  pub user_id : ℕ
  pub item_type : ItemType
  pub item_id : ℕ
  pub rating_value : ℕ
  pub comment : Option String
  pub created_at : ℕ

pub record GalleryItem : Type 0 where
  pub id : ℕ
  pub title : String
  pub description : String
  pub is_active : Bool
  pub created_by : ℕ
  pub updated_by : ℕ
  pub deleted_at : Option ℕ
  pub created_at : ℕ
  pub updated_at : ℕ

-- The next value of each identity column.
pub record Sequences : Type 0 where
  pub next_product : ℕ
  pub next_product_asset : ℕ
  pub next_order : ℕ
  pub next_order_item : ℕ
  pub next_order_history : ℕ
  pub next_cart_item : ℕ
  pub next_fault : ℕ
  pub next_fault_asset : ℕ
  pub next_fault_history : ℕ
  pub next_service : ℕ
  pub next_service_history : ℕ
  pub next_step : ℕ
  pub next_conversation : ℕ
  pub next_message : ℕ
  pub next_product_rating : ℕ
  pub next_item_rating : ℕ
  pub next_gallery : ℕ
  pub next_gallery_asset : ℕ

pub record Db : Type 0 where
  -- NOW(), which the environment moves on between requests
  pub clock : ℕ
  pub sequences : Sequences
  pub open sequences use *
  pub users : List User
  pub files : List File
  pub products : List Product
  pub product_assets : List ProductAsset
  pub orders : List Order
  pub order_items : List OrderItem
  pub order_history : List (HistoryEntry OrderStatus)
  pub cart_items : List CartItem
  pub faults : List Fault
  pub fault_assets : List ItemAsset
  pub fault_history : List (HistoryEntry FaultStatus)
  pub services : List ServiceOrder
  pub service_history : List (HistoryEntry ServiceStatus)
  pub steps : List FollowupStep
  pub conversations : List Conversation
  pub messages : List FollowupMessage
  pub product_ratings : List ProductRating
  pub item_ratings : List ItemRating
  pub gallery_items : List GalleryItem
  pub gallery_assets : List ItemAsset

-- ROLLBACK: every table is as it was before, and the sequences stay where they are.
abbrev pub rollback : Db → Db → Db
rollback before after = record before { sequences = after.sequences }
