-- ===== src/S3/Responses.antt =====
-- The errors of internal/s3/errors.go, and WriteError of internal/handler/error.go, which answers the
-- errors of other packages as ErrInternalError.
use go_s.Prelude.{
  ℕ, Bytes, codes, Error, access_denied, bucket_already_exists, bucket_already_owned_by_you,
  bucket_not_empty, entity_too_large, insufficient_storage, invalid_access_key_id,
  invalid_bucket_name, invalid_storage_class, invalid_part, invalid_part_order, invalid_range,
  invalid_copy_source, key_too_long, malformed_xml, method_not_allowed, missing_content_length,
  no_such_bucket, no_such_key, no_such_upload, no_such_lifecycle, no_such_website, not_implemented,
  signature_does_not_match, slow_down,
}

-- The fields of an Error that the table sets.
pub record S3Error : Type 0 where
  pub code : Bytes
  pub message : Bytes
  pub http_status : ℕ

abbrev pub internal : S3Error
internal = record {
  code = codes "InternalError";
  message = codes "We encountered an internal error. Please try again.";
  http_status = 500;
}

-- The error that WriteError prints, and whose status it answers with.
unfoldable pub written_error : Error → S3Error
written_error access_denied = record {
  code = codes "AccessDenied";
  message = codes "Access Denied";
  http_status = 403;
}
written_error bucket_already_exists = record {
  code = codes "BucketAlreadyExists";
  message =
      codes
        "The requested bucket name is not available. The bucket namespace is shared by all users of the system. Please select a different name and try again.";
  http_status = 409;
}
written_error bucket_already_owned_by_you = record {
  code = codes "BucketAlreadyOwnedByYou";
  message =
      codes "Your previous request to create the named bucket succeeded and you already own it.";
  http_status = 409;
}
written_error bucket_not_empty = record {
  code = codes "BucketNotEmpty";
  message = codes "The bucket you tried to delete is not empty";
  http_status = 409;
}
written_error entity_too_large = record {
  code = codes "EntityTooLarge";
  message = codes "Your proposed upload exceeds the maximum allowed object size.";
  http_status = 400;
}
written_error insufficient_storage = record {
  code = codes "InsufficientStorage";
  message = codes "There is not enough space on the disk.";
  http_status = 507;
}
written_error invalid_access_key_id = record {
  code = codes "InvalidAccessKeyId";
  message = codes "The AWS Access Key Id you provided does not exist in our records.";
  http_status = 403;
}
written_error invalid_bucket_name = record {
  code = codes "InvalidBucketName";
  message = codes "The specified bucket is not valid.";
  http_status = 400;
}
written_error invalid_storage_class = record {
  code = codes "InvalidStorageClass";
  message = codes "The storage class you specified is not valid";
  http_status = 400;
}
written_error invalid_part = record {
  code = codes "InvalidPart";
  message =
      codes
        "One or more of the specified parts could not be found. The part may not have been uploaded, or the specified entity tag may not match the part's entity tag.";
  http_status = 400;
}
written_error invalid_part_order = record {
  code = codes "InvalidPartOrder";
  message =
      codes
        "The list of parts was not in ascending order. The parts list must be specified in order by part number.";
  http_status = 400;
}
written_error invalid_range = record {
  code = codes "InvalidRange";
  message = codes "The requested range is not satisfiable";
  http_status = 416;
}
written_error invalid_copy_source = record {
  code = codes "InvalidArgument";
  message = codes "Copy Source must mention the source bucket and key: sourcebucket/sourcekey";
  http_status = 400;
}
written_error key_too_long = record {
  code = codes "KeyTooLongError";
  message = codes "Your key is too long";
  http_status = 400;
}
written_error malformed_xml = record {
  code = codes "MalformedXML";
  message =
      codes
        "The XML you provided was not well-formed or did not validate against our published schema";
  http_status = 400;
}
written_error method_not_allowed = record {
  code = codes "MethodNotAllowed";
  message = codes "The specified method is not allowed against this resource.";
  http_status = 405;
}
written_error missing_content_length = record {
  code = codes "MissingContentLength";
  message = codes "You must provide the Content-Length HTTP header.";
  http_status = 411;
}
written_error no_such_bucket = record {
  code = codes "NoSuchBucket";
  message = codes "The specified bucket does not exist";
  http_status = 404;
}
written_error no_such_key = record {
  code = codes "NoSuchKey";
  message = codes "The specified key does not exist.";
  http_status = 404;
}
written_error no_such_upload = record {
  code = codes "NoSuchUpload";
  message =
      codes
        "The specified multipart upload does not exist. The upload ID may be invalid, or the upload may have been aborted or completed.";
  http_status = 404;
}
written_error no_such_lifecycle = record {
  code = codes "NoSuchLifecycleConfiguration";
  message = codes "The lifecycle configuration does not exist";
  http_status = 404;
}
written_error no_such_website = record {
  code = codes "NoSuchWebsiteConfiguration";
  message = codes "The specified bucket does not have a website configuration";
  http_status = 404;
}
written_error not_implemented = record {
  code = codes "NotImplemented";
  message = codes "A header you provided implies functionality that is not implemented";
  http_status = 501;
}
written_error signature_does_not_match = record {
  code = codes "SignatureDoesNotMatch";
  message =
      codes
        "The request signature we calculated does not match the signature you provided. Check your key and signing method.";
  http_status = 403;
}
written_error slow_down = record {
  code = codes "SlowDown";
  message = codes "Please reduce your request rate.";
  http_status = 429;
}
written_error e = internal
