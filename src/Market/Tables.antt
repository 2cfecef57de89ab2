-- ===== src/Market/Tables.antt =====
-- The tables of db/migrations 0001 to 0023 that the older services of src/ read and write, beside
-- those of authentication, with which they share the users.
use kayan_place.Prelude.{ℕ, String, Bool, ◌&&◌, not, List, Option, ◌==◌, is_some}
use kayan_place.Database.{Exec, Outcome, ok, err}
use kayan_place.Auth.Tables.{AuthDb, Account}
use kayan_place.Auth.Tables

pub data FileStatus : Type 0 where
  pending uploaded failed : FileStatus

pub data FilePurpose : Type 0 where
  avatar product_image chat_attachment document : FilePurpose

pub data OwnerType : Type 0 where
  of_user of_product of_message : OwnerType

pub record FileRow : Type 0 where
  pub id : ℕ
  pub uploader_user_id : Option ℕ
  pub owner_type : OwnerType
  pub owner_id : Option ℕ
  pub purpose : FilePurpose
  pub object_key : String
  pub original_filename : String
  pub mime_type : Option String
  pub file_size_bytes : Option ℕ
  pub checksum_sha256 : Option String
  pub status : FileStatus
  pub uploaded_at : Option ℕ
  pub created_at : ℕ
  pub updated_at : ℕ

pub data ListingStatus : Type 0 where
  available sold archived : ListingStatus

-- products
pub record Listing : Type 0 where
  pub id : ℕ
  pub owner_id : ℕ
  pub category : String
  pub subcategory : Option String
  pub name : String
  pub description : String
  pub price : ℕ
  pub city : String
  pub address_text : String
  pub details : Option String
  pub status : ListingStatus
  pub is_negotiable : Bool
  pub preferred_contact_method : String
  pub deleted_at : Option ℕ
  pub created_at : ℕ
  pub updated_at : ℕ

-- product_images
pub record ListingImage : Type 0 where
  pub id : ℕ
  pub product_id : ℕ
  pub file_id : ℕ
  pub object_key : String
  pub sort_order : ℕ

pub record UserRating : Type 0 where
  pub id : ℕ
  pub rater_id : ℕ
  pub rated_user_id : ℕ
  pub rating_value : ℕ
  pub comment : Option String
  pub created_at : ℕ
  pub updated_at : ℕ

pub record ChatConversation : Type 0 where
  pub id : ℕ
  pub user_a_id : ℕ
  pub user_b_id : ℕ
  pub product_id : Option ℕ
  pub last_message_id : Option ℕ
  pub created_at : ℕ

pub record ChatMessage : Type 0 where
  pub id : ℕ
  pub conversation_id : ℕ
  pub sender_id : ℕ
  pub message_text : String
  pub sent_at : ℕ
  pub read_at : Option ℕ

pub record AdminWarning : Type 0 where
  pub id : ℕ
  pub admin_id : ℕ
  pub target_user_id : ℕ
  pub message : String
  pub created_at : ℕ

pub record AuditLog : Type 0 where
  pub id : ℕ
  pub actor_id : ℕ
  pub action : String
  pub target_id : ℕ
  pub payload : String
  pub created_at : ℕ

pub record MarketSequences : Type 0 where
  pub next_file : ℕ
  pub next_listing : ℕ
  pub next_image : ℕ
  pub next_rating : ℕ
  pub next_conversation : ℕ
  pub next_message : ℕ
  pub next_warning : ℕ
  pub next_audit : ℕ

pub record MarketDb : Type 0 where
  pub auth : AuthDb
  pub open auth use {clock, draws, redis, accounts}
  pub sequences : MarketSequences
  pub open sequences use *
  pub files : List FileRow
  pub listings : List Listing
  pub images : List ListingImage
  pub ratings : List UserRating
  pub conversations : List ChatConversation
  pub messages : List ChatMessage
  pub warnings : List AdminWarning
  pub audit_logs : List AuditLog

-- ROLLBACK: the tables are as they were, and the sequences stay where they are.
abbrev pub rollback_market : MarketDb → MarketDb → MarketDb
rollback_market before after = record before {
  auth = Tables.rollback before.auth after.auth;
  sequences = after.sequences;
}

abbrev lift_outcome {ℓ} : {A : Type ℓ} → MarketDb → Outcome AuthDb A → Outcome MarketDb A
lift_outcome s (ok a t) = ok a (record s { auth = t })
lift_outcome s (err e t) = err e (record s { auth = t })

-- A handler of authentication, on the whole state.
abbrev pub on_auth {ℓ} : {A : Type ℓ} → Exec AuthDb A → Exec MarketDb A
on_auth m s = lift_outcome s (m s.auth)

-- id = $1 AND deleted_at IS NULL
abbrev pub is_user : ℕ → Account → Bool
is_user k a = a.id == k && not (is_some a.deleted_at)

abbrev pub with_accounts : MarketDb → List Account → MarketDb
with_accounts s rows = record s { auth = record s.auth { accounts = rows } }
