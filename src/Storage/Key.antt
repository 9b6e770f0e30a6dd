-- ===== src/Storage/Key.antt =====
-- `JSON::KEY` of core/include/Storage/StorageCommon.h.
use diginext.Base.{String}

abbrev pub request : String
request = "request"

abbrev pub key : String
key = "key"

abbrev pub value : String
value = "value"

abbrev pub status : String
status = "status"

abbrev pub description : String
description = "description"
