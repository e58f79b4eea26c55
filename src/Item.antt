-- ===== src/Item.antt =====
-- core/memstore/data_item.h: one slot of the hash store, its constructors and its field addresses.
use disaggregate_metadata_se.Base.{ℕ, ◌+◌, Bool, not, ◌&&◌, List, [], ◌==◌, add64}

-- `value` holds the first `value_size` bytes; what stands behind them is never read.
-- A number field is the bit pattern of its C type.
pub record DataItem : Type 0 where
  pub table_id : ℕ
  pub value_size : ℕ
  pub key : ℕ
  pub remote_offset : ℕ
  pub version : ℕ
  pub lock : ℕ
  pub value : List ℕ
  pub valid : ℕ
  pub user_insert : ℕ

-- `sizeof(DataItem)` with MAX_ITEM_SIZE = 664: six words, the value, two bytes, padding.
abbrev pub data_item_size : ℕ
data_item_size = 720

-- `DataItem(table_id_t t, itemkey_t k)`: an empty item for fetching data from remote.
unfoldable pub fetch_item : ℕ → ℕ → DataItem
fetch_item t k = record {
  table_id = t;
  value_size = 0;
  key = k;
  remote_offset = 0;
  version = 0;
  lock = 0;
  value = [];
  valid = 1;
  user_insert = 0;
}

-- `DataItem(table_id_t t, size_t s, itemkey_t k, version_t v, uint8_t ins)`; the value is not set.
unfoldable pub user_item : List ℕ → ℕ → ℕ → ℕ → ℕ → ℕ → DataItem
user_item unset t s k v ins = record {
  table_id = t;
  value_size = s;
  key = k;
  remote_offset = 0;
  version = v;
  lock = 0;
  value = unset;
  valid = 1;
  user_insert = ins;
}

-- `DataItem(table_id_t t, size_t s, itemkey_t k, uint8_t* d)`: what the server loads.
unfoldable pub load_item : ℕ → ℕ → ℕ → List ℕ → DataItem
load_item t s k d = record {
  table_id = t;
  value_size = s;
  key = k;
  remote_offset = 0;
  version = 0;
  lock = 0;
  value = d;
  valid = 1;
  user_insert = 0;
}

-- What `memset` to zero leaves in a slot.
abbrev pub zero_item : DataItem
zero_item = record {
  table_id = 0;
  value_size = 0;
  key = 0;
  remote_offset = 0;
  version = 0;
  lock = 0;
  value = [];
  valid = 0;
  user_insert = 0;
}

abbrev pub is_valid : DataItem → Bool
is_valid d = not (d.valid == 0)

-- `data_item.valid && data_item.key == key`
abbrev pub hit : ℕ → DataItem → Bool
hit k d = is_valid d && d.key == k

-- The offsets of the fields `lock` and `version` of the item at a remote offset.
unfoldable pub get_remote_lock_addr : ℕ → ℕ
get_remote_lock_addr off = add64 off (8 + 8 + 8 + 8 + 8)

unfoldable pub get_remote_version_addr : ℕ → ℕ
get_remote_version_addr off = add64 off (8 + 8 + 8 + 8)
