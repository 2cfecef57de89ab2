-- ===== src/Kayan/Samples.antt =====
-- A small shop for the tests: two users and an administrator, two products, one filled cart, one
-- order, one fault report and one service order.
use kayan_place.Prelude.{ℕ, String, Bool, true, false, [], ◌∷◌, none, some}
use kayan_place.Kayan.Dto.{
  AuthUser, OrderStatus, FaultStatus, ServiceStatus, FaultSeverity, ServiceType,
}
use kayan_place.Kayan.Tables.{
  Db, Sequences, User, File, uploaded, product_image, Product, Order, HistoryEntry, CartItem, Fault,
  ServiceOrder,
}

abbrev pub alice : AuthUser
alice = record { sub = 1; is_admin = false }

abbrev pub bob : AuthUser
bob = record { sub = 2; is_admin = false }

abbrev pub root : AuthUser
root = record { sub = 9; is_admin = true }

abbrev user : ℕ → String → Bool → User
user id name is_admin = record {
  id = id;
  name = name;
  email = none;
  phone = none;
  is_admin = is_admin;
  deleted_at = none;
}

abbrev product : (id amount price : ℕ) → Product
product id amount price = record {
  id = id;
  title = "p";
  description = "d";
  amount = amount;
  price = price;
  details = none;
  is_active = true;
  created_by = 9;
  updated_by = 9;
  deleted_at = none;
  created_at = 0;
  updated_at = 0;
}

abbrev picture : File
picture = record {
  id = 7;
  object_key = "k";
  original_filename = none;
  mime_type = some "image/png";
  purpose = product_image;
  status = uploaded;
}

abbrev cart_item : (id product_id quantity : ℕ) → CartItem
cart_item id product_id quantity = record {
  id = id;
  user_id = 1;
  product_id = product_id;
  quantity = quantity;
  created_at = 3;
  updated_at = 3;
}

abbrev pub order_one : Order
order_one = record {
  id = 1;
  user_id = 1;
  delivery_address = "home";
  status = OrderStatus.delivered;
  cancelled_at = none;
  created_at = 1;
  updated_at = 1;
}

abbrev pub fault_one : Fault
fault_one = record {
  id = 1;
  user_id = 1;
  title = "t";
  description = "d";
  severity = FaultSeverity.high;
  address = "home";
  status = FaultStatus.received;
  cancelled_at = none;
  created_at = 1;
  updated_at = 1;
}

abbrev pub service_one : ServiceOrder
service_one = record {
  id = 1;
  user_id = 1;
  service_type = ServiceType.renewal;
  description = "d";
  address = "home";
  status = ServiceStatus.finished;
  cancelled_at = none;
  created_at = 1;
  updated_at = 1;
}

abbrev log : {S : Type 0} → S → HistoryEntry S
log status = record { id = 1; item_id = 1; status = status; changed_by = 1; created_at = 1 }

abbrev sequences : Sequences
sequences = record {
  next_product = 3;
  next_product_asset = 2;
  next_order = 2;
  next_order_item = 2;
  next_order_history = 2;
  next_cart_item = 3;
  next_fault = 2;
  next_fault_asset = 2;
  next_fault_history = 2;
  next_service = 2;
  next_service_history = 2;
  next_step = 2;
  next_conversation = 2;
  next_message = 2;
  next_product_rating = 2;
  next_item_rating = 2;
  next_gallery = 2;
  next_gallery_asset = 2;
}

abbrev pub shop : Db
shop = record {
  clock = 5;
  sequences = sequences;
  users = user 1 "Alice" false ∷ user 2 "Bob" false ∷ user 9 "Root" true ∷ [];
  files = picture ∷ [];
  products = product 1 10 250 ∷ product 2 3 100 ∷ [];
  product_assets = [];
  orders = order_one ∷ [];
  order_items =
      record { id = 1; order_id = 1; product_id = 1; quantity = 1; unit_price = 200 } ∷ [];
  order_history = log OrderStatus.delivered ∷ [];
  cart_items = cart_item 1 1 2 ∷ cart_item 2 2 1 ∷ [];
  faults = fault_one ∷ [];
  fault_assets = [];
  fault_history = log FaultStatus.received ∷ [];
  services = service_one ∷ [];
  service_history = log ServiceStatus.finished ∷ [];
  steps = [];
  conversations = [];
  messages = [];
  product_ratings = [];
  item_ratings = [];
  gallery_items = [];
  gallery_assets = [];
}
