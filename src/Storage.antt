-- ===== src/Storage.antt =====
-- The data types of internal/storage/interface.go that the metadata store keeps and returns.
-- A time is its nanoseconds, an int64 its bit pattern.
use go_s.Prelude.{ℕ, Bytes, Bool, Option, List}

abbrev pub Time : Type 0
Time = ℕ

pub record BucketInfo : Type 0 where
  pub name : Bytes
  pub creation_date : Time
  pub region : Bytes
  pub owner : Bytes
  pub acl : Bytes
  pub versioning : Bytes
  pub object_lock_enabled : Bool

pub record ObjectMeta : Type 0 where
  pub size : ℕ
  pub etag : Bytes
  pub content_type : Bytes
  pub content_encoding : Bytes
  pub content_disposition : Bytes
  pub content_language : Bytes
  pub cache_control : Bytes
  pub expires : Bytes
  pub last_modified : Time
  pub user_meta : List (Bytes × Bytes)
  pub tags : List (Bytes × Bytes)
  pub storage_class : Bytes
  pub acl : Bytes
  pub version_id : Bytes
  pub is_delete_marker : Bool
  pub is_latest : Bool
  pub server_side_encryption : Bytes
  pub object_lock_mode : Bytes
  pub object_lock_retain_until_date : Option Time
  pub object_lock_legal_hold_status : Bytes

pub record ObjectInfo : Type 0 where
  pub key : Bytes
  pub version_id : Bytes
  pub is_latest : Bool
  pub is_delete_marker : Bool
  pub last_modified : Time
  pub etag : Bytes
  pub size : ℕ
  pub storage_class : Bytes
  pub owner : Bytes

pub record PartInfo : Type 0 where
  pub part_number : ℕ
  pub etag : Bytes
  pub last_modified : Time
  pub size : ℕ

pub record UploadInfo : Type 0 where
  pub key : Bytes
  pub upload_id : Bytes
  pub initiated : Time
  pub initiator : Bytes
  pub owner : Bytes
