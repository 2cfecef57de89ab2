-- ===== src/Kayan/Dto.antt =====
-- src/kayan/kayan.dto.ts and src/common/types/auth-user.type.ts: the enums and the validated bodies
-- of the requests. Prices are in hundredths; ids, amounts and times are natural numbers.
use kayan_place.Prelude.{ℕ, String, ◌≡◌, Bool, true, List, Option, arith, ◌==◌}

pub data OrderStatus : Type 0 where
  received ready_to_ship on_the_way cancelled delivered : OrderStatus

pub data FaultStatus : Type 0 where
  received assigned on_the_way in_progress finished cancelled : FaultStatus

pub data ServiceStatus : Type 0 where
  not_started in_progress cancelled finished : ServiceStatus

pub data FaultSeverity : Type 0 where
  normal high urgent emergent : FaultSeverity

pub data ServiceType : Type 0 where
  designing maintenance renewal : ServiceType

pub data ItemType : Type 0 where
  order fault service : ItemType

-- The place of a constant in its enum, by which constants are compared.
abbrev pub order_status_code : OrderStatus → ℕ
order_status_code OrderStatus.received = 0
order_status_code OrderStatus.ready_to_ship = 1
order_status_code OrderStatus.on_the_way = 2
order_status_code OrderStatus.cancelled = 3
order_status_code OrderStatus.delivered = 4

abbrev pub fault_status_code : FaultStatus → ℕ
fault_status_code FaultStatus.received = 0
fault_status_code FaultStatus.assigned = 1
fault_status_code FaultStatus.on_the_way = 2
fault_status_code FaultStatus.in_progress = 3
fault_status_code FaultStatus.finished = 4
fault_status_code FaultStatus.cancelled = 5

abbrev pub service_status_code : ServiceStatus → ℕ
service_status_code ServiceStatus.not_started = 0
service_status_code ServiceStatus.in_progress = 1
service_status_code ServiceStatus.cancelled = 2
service_status_code ServiceStatus.finished = 3

abbrev pub severity_code : FaultSeverity → ℕ
severity_code FaultSeverity.normal = 0
severity_code FaultSeverity.high = 1
severity_code FaultSeverity.urgent = 2
severity_code FaultSeverity.emergent = 3

abbrev pub service_type_code : ServiceType → ℕ
service_type_code ServiceType.designing = 0
service_type_code ServiceType.maintenance = 1
service_type_code ServiceType.renewal = 2

abbrev pub item_type_code : ItemType → ℕ
item_type_code ItemType.order = 0
item_type_code ItemType.fault = 1
item_type_code ItemType.service = 2

abbrev pub same_order_status : OrderStatus → OrderStatus → Bool
same_order_status a b = order_status_code a == order_status_code b

abbrev pub same_fault_status : FaultStatus → FaultStatus → Bool
same_fault_status a b = fault_status_code a == fault_status_code b

abbrev pub same_service_status : ServiceStatus → ServiceStatus → Bool
same_service_status a b = service_status_code a == service_status_code b

abbrev pub same_item_type : ItemType → ItemType → Bool
same_item_type a b = item_type_code a == item_type_code b

pub same_fault_status-eq : (a b : FaultStatus) → same_fault_status a b ≡ true → a ≡ b
same_fault_status-eq a b h = ground arith

-- The values of the enum in the texts of errors.
abbrev pub fault_status_name : FaultStatus → String
fault_status_name FaultStatus.received = "received"
fault_status_name FaultStatus.assigned = "assigned"
fault_status_name FaultStatus.on_the_way = "on_the_way"
fault_status_name FaultStatus.in_progress = "in_progress"
fault_status_name FaultStatus.finished = "finished"
fault_status_name FaultStatus.cancelled = "cancelled"

pub record AuthUser : Type 0 where
  pub sub : ℕ
  pub is_admin : Bool

pub record ProductItemDto : Type 0 where
  pub product_id : ℕ
  pub quantity : ℕ

pub record AdminCreateProductDto : Type 0 where
  pub title : String
  pub description : String
  pub amount : ℕ
  pub price : ℕ
  pub details : Option String
  pub image_file_ids : Option (List ℕ)
  pub file_ids : Option (List ℕ)

pub record AdminUpdateProductDto : Type 0 where
  pub title : Option String
  pub description : Option String
  pub amount : Option ℕ
  pub price : Option ℕ
  pub details : Option String
  pub image_file_ids : Option (List ℕ)
  pub file_ids : Option (List ℕ)
  pub is_active : Option Bool

pub record CreateOrderDto : Type 0 where
  pub delivery_address : String
  pub items : List ProductItemDto

pub record CreateFaultDto : Type 0 where
  pub title : String
  pub description : String
  pub severity : FaultSeverity
  pub address : String
  pub image_file_ids : Option (List ℕ)

pub record UpdateFaultDto : Type 0 where
  pub title : Option String
  pub description : Option String
  pub severity : Option FaultSeverity
  pub address : Option String
  pub image_file_ids : Option (List ℕ)

pub record CreateServiceOrderDto : Type 0 where
  pub service_type : ServiceType
  pub description : String
  pub address : String

pub record UpdateServiceOrderDto : Type 0 where
  pub description : Option String
  pub address : Option String

pub record CreateFollowupStepDto : Type 0 where
  pub item_type : ItemType
  pub item_id : ℕ
  pub title : String
  pub step_image_file_id : Option ℕ
  pub sort_order : Option ℕ

pub record UpdateFollowupStepDto : Type 0 where
  pub title : Option String
  pub step_image_file_id : Option ℕ
  pub sort_order : Option ℕ

pub record CreateGalleryItemDto : Type 0 where
  pub title : String
  pub description : String
  pub image_file_ids : Option (List ℕ)

pub record UpdateGalleryItemDto : Type 0 where
  pub title : Option String
  pub description : Option String
  pub is_active : Option Bool
  pub image_file_ids : Option (List ℕ)

-- Validation gives `order_id` and `product_id` for an order, and `item_id` otherwise.
pub data RatingTarget : Type 0 where
  of_product : (order_id product_id : ℕ) → RatingTarget
  of_item : ItemType → (item_id : ℕ) → RatingTarget

pub record CreateItemRatingDto : Type 0 where
  pub target : RatingTarget
  pub rating_value : ℕ
  pub comment : Option String

pub record CreateFollowupConversationDto : Type 0 where
  pub item_type : ItemType
  pub item_id : ℕ
  pub admin_id : Option ℕ

pub data SortDirection : Type 0 where
  asc desc : SortDirection

pub data ProductAvailabilityFilter : Type 0 where
  active inactive all : ProductAvailabilityFilter

pub data ProductSortBy : Type 0 where
  by_created_at by_price : ProductSortBy

pub data FaultSortBy : Type 0 where
  by_created_at by_severity : FaultSortBy
