-- ===== src/Storage/Value.antt =====
-- `JSON::VALUE` of core/include/Storage/StorageCommon.h.
use diginext.Base.{ℕ, List, codes}

abbrev pub status_ok : List ℕ
status_ok = codes "ok"

abbrev pub status_error : List ℕ
status_error = codes "error"

abbrev pub request_read : List ℕ
request_read = codes "read"

abbrev pub request_write : List ℕ
request_write = codes "write"
