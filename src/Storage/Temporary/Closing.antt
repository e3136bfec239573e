-- ===== src/Storage/Temporary/Closing.antt =====
-- The deletion of an asset from the local store.
use cultureshift.Base.{Bool, true, false, nat_eq, codes_eq, string_eq}
use cultureshift.Storage.Files.{FileName, asset_png, asset_jpg, meta_json, asset_part, meta_part}

-- The names of an asset's own files.
abbrev pub is_active : FileName → Bool
is_active asset_png = true
is_active asset_jpg = true
is_active meta_json = true
is_active asset_part = true
is_active meta_part = true
is_active _ = false
