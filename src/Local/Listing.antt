-- ===== src/Local/Listing.antt =====
-- The listings of internal/storage/local/local.go: the pages of the metadata store as the protocol's
-- results.
pub mod Walk
use mathlib.Core.Option
use go_s.Prelude.{
  ℕ, Bytes, Result, ok, err, List, Bool, not, is_empty, keep, Option, none, some, ◌||◌,
}
use go_s.Bolt.{Bolt, Codec}
use go_s.Storage.{ObjectMeta, ObjectInfo}
use go_s.Metadata.Listing.{Page, list_objects}
use go_s.Metadata.Listing.Versions.{VersionsPage, list_object_versions}
use go_s.Local.Objects.{found_or}

-- ListResult and ListResultV2 of internal/storage/interface.go, without the fields that are left empty.
pub record ListResult : Type 0 where
  pub is_truncated : Bool
  pub next_marker : Bytes
  pub contents : List ObjectInfo
  pub common_prefixes : List Bytes

pub record ListVersionsResult : Type 0 where
  pub objects : List ObjectInfo
  pub delete_markers : List ObjectInfo
  pub common_prefixes : List Bytes
  pub is_truncated : Bool
  pub next_key_marker : Bytes
  pub next_version_id_marker : Bytes

pub record ListResultV2 : Type 0 where
  pub is_truncated : Bool
  pub next_continuation_token : Bytes
  pub contents : List ObjectInfo
  pub common_prefixes : List Bytes

abbrev pub list_result : Page → ListResult
list_result page = record {
  is_truncated = not (is_empty page.next_marker);
  next_marker = page.next_marker;
  contents = page.objects;
  common_prefixes = page.common_prefixes;
}

abbrev pub list_result_v2 : Page → ListResultV2
list_result_v2 page = record {
  is_truncated = not (is_empty page.next_marker);
  next_continuation_token = page.next_marker;
  contents = page.objects;
  common_prefixes = page.common_prefixes;
}

-- The loop that parts the delete markers from the other versions.
abbrev pub list_versions_result : VersionsPage → ListVersionsResult
list_versions_result page = record {
  objects = keep (λ (o : ObjectInfo). not o.is_delete_marker) page.objects;
  delete_markers = keep (λ (o : ObjectInfo). o.is_delete_marker) page.objects;
  common_prefixes = page.common_prefixes;
  is_truncated = not (is_empty page.next_key_marker) || not (is_empty page.next_version_id_marker);
  next_key_marker = page.next_key_marker;
  next_version_id_marker = page.next_version_id_marker;
}

abbrev pub result_of {ℓ κ} : {A : Type ℓ} {B : Type κ} → (A → B) → Result A → Result B
result_of f (ok a) = ok (f a)
result_of f (err e) = err e

module _ (B : Bolt) (C : Codec ObjectMeta) where
  unfoldable pub list_objects_v1 : Bytes → Bytes → Bytes → Bytes → ℕ → B.Db → Result ListResult
  list_objects_v1 bucket pfx delimiter marker max_keys db =
      result_of list_result (found_or (list_objects B C bucket pfx delimiter marker max_keys db))

  -- The option StartAfter is not read.
  unfoldable pub list_objects_v2 : Bytes → Bytes → Bytes → Bytes → ℕ → B.Db → Result ListResultV2
  list_objects_v2 bucket pfx delimiter continuation_token max_keys db =
      result_of list_result_v2
        (found_or (list_objects B C bucket pfx delimiter continuation_token max_keys db))

  -- `none` where the fuel of the metadata store's loop runs out.
  unfoldable pub list_versions :
      Bytes → Bytes → Bytes → Bytes → Bytes → ℕ → B.Db → Result (Option ListVersionsResult)
  list_versions bucket pfx delimiter key_marker version_id_marker max_keys db =
      result_of (Option.map list_versions_result) (
        found_or
          (list_object_versions B C bucket pfx delimiter key_marker version_id_marker max_keys db))
