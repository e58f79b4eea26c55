-- ===== src/Meta.antt =====
-- memory_pool/server/server.cc (PrepareHashMeta) and core/connection/meta_manager.cc (GetMemStoreMeta):
-- how a compute node learns where the tables of a memory node are. The socket is left out: what `recv`
-- stores is the message, and behind it the buffer holds what `malloc` found there.
pub mod Bytes
pub mod Layout
pub mod Accept
mod Tests
use disaggregate_metadata_se.Base.{
  ℕ, zero, suc, ◌+◌, ◌*◌, ◌/◌, ◌%◌, ◌^◌, Bool, true, false, not, ◌&&◌, Option, none, some, List, [],
  ◌∷◌, ◌++◌, ◌==◌, ltb, leb, if◌then◌else◌, length, update, u64_mod, mul64, add64,
}
use disaggregate_metadata_se.Base.Run.{Run, ok, aborted, fault, ◌>>=◌}
use disaggregate_metadata_se.HashStore.{HashStore, hash_node_size}

-- The members in their order; every one is a word of 8 bytes, `base_off` too.
pub record HashMeta : Type 0 where
  pub table_id : ℕ
  pub data_ptr : ℕ
  pub base_off : ℕ
  pub bucket_num : ℕ
  pub node_size : ℕ

abbrev pub hash_meta_size : ℕ
hash_meta_size = 40

abbrev pub mem_store_meta_end : ℕ
mem_store_meta_end = 0xE0FF0E0F

-- A word as its `k` bytes, the lowest first, and a word read from memory.
abbrev pub put_bytes : ℕ → ℕ → List ℕ
put_bytes zero v = []
put_bytes (suc k) v = v % 256 ∷ put_bytes k (v / 256)

abbrev pub get_bytes : ℕ → (ℕ → ℕ) → ℕ
get_bytes zero f = 0
get_bytes (suc k) f = f 0 + 256 * get_bytes k (λ i. f (suc i))

-- The memory from `off` on.
abbrev pub from : ℕ → (ℕ → ℕ) → ℕ → ℕ
from off f i = f (off + i)

unfoldable pub meta_bytes : HashMeta → List ℕ
meta_bytes t =
    put_bytes 8 t.table_id
    ++ put_bytes 8 t.data_ptr
    ++ put_bytes 8 t.base_off
    ++ put_bytes 8 t.bucket_num
    ++ put_bytes 8 t.node_size

unfoldable pub get_meta : (ℕ → ℕ) → HashMeta
get_meta f = record {
  table_id = get_bytes 8 f;
  data_ptr = get_bytes 8 (from 8 f);
  base_off = get_bytes 8 (from 16 f);
  bucket_num = get_bytes 8 (from 24 f);
  node_size = get_bytes 8 (from 32 f);
}

abbrev pub all_meta_bytes : List HashMeta → List ℕ
all_meta_bytes [] = []
all_meta_bytes (t ∷ ts) = meta_bytes t ++ all_meta_bytes ts

-- The server's message: the number of its primary tables, its id, the tables, and the end mark.
unfoldable pub prepare_hash_meta : ℕ → List HashMeta → List ℕ
prepare_hash_meta machine_id metas =
    put_bytes 8 (length metas)
    ++ put_bytes 4 machine_id
    ++ all_meta_bytes metas
    ++ put_bytes 8 mem_store_meta_end

-- The buffer of the client, which has 1 GB.
abbrev pub recv_size : ℕ
recv_size = 1024 * 1024 * 1024

abbrev pub received : List ℕ → (ℕ → ℕ) → ℕ → ℕ
received [] junk i = junk i
received (b ∷ bs) junk zero = b
received (b ∷ bs) junk (suc i) = received bs (λ j. junk (suc j)) i

-- The maps that it fills, and the arrays of `max_db_table_num` vectors.
abbrev pub max_db_table_num : ℕ
max_db_table_num = 15

abbrev pub max_remote_node_num : ℕ
max_remote_node_num = 100

pub record MetaManager : Type 0 where
  pub primary_hash_metas : ℕ → Option HashMeta
  pub primary_table_nodes : ℕ → Option ℕ
  pub backup_hash_metas : ℕ → List HashMeta
  pub backup_table_nodes : ℕ → List ℕ

abbrev pub add_primary : ℕ → HashMeta → MetaManager → MetaManager
add_primary machine t m = record m {
  primary_hash_metas = update m.primary_hash_metas t.table_id (some t);
  primary_table_nodes = update m.primary_table_nodes t.table_id (some machine);
}

abbrev pub add_backup : ℕ → HashMeta → MetaManager → MetaManager
add_backup machine t m = record m {
  backup_hash_metas =
      update m.backup_hash_metas t.table_id (m.backup_hash_metas t.table_id ++ t ∷ []);
  backup_table_nodes =
      update m.backup_table_nodes t.table_id (m.backup_table_nodes t.table_id ++ machine ∷ []);
}

-- The loop over the primary tables, the memory from the next one on.
pub primary_loop : ℕ → ℕ → (ℕ → ℕ) → MetaManager → MetaManager
primary_loop zero machine f m = m
primary_loop (suc n) machine f m =
    primary_loop n machine (from hash_meta_size f) (add_primary machine (get_meta f) m)

-- The backup tables; a table id out of the arrays is out of bounds.
pub backup_loop : ℕ → ℕ → (ℕ → ℕ) → MetaManager → Run MetaManager
backup_loop zero machine f m = ok m
backup_loop (suc n) machine f m =
    let rest = backup_loop n machine (from hash_meta_size f) (add_backup machine (get_meta f) m) in
    if ltb (get_meta f).table_id max_db_table_num then rest else fault

-- After `recv`: the machine's id, or none for -1, and the tables learnt. The id is a signed `int`, so
-- its upper half passes the check. An end mark that would lie outside the buffer is a bad access.
pub get_mem_store_meta : (ℕ → ℕ) → MetaManager → Run (Option ℕ × MetaManager)
unfolding primary_loop backup_loop
get_mem_store_meta f m =
    let primary_meta_num = get_bytes 8 f in
    let backup_meta_num = get_bytes 8 (from 8 f) in
    let remote_machine_id = get_bytes 4 (from 16 f) in
    let tables = from 20 f in
    let end = add64 20 (mul64 hash_meta_size (add64 primary_meta_num backup_meta_num)) in
    let with_primary = primary_loop primary_meta_num remote_machine_id tables m in
    let with_backup =
      backup_loop backup_meta_num remote_machine_id
        (from (hash_meta_size * primary_meta_num) tables) with_primary in
    if not (ltb remote_machine_id max_remote_node_num) && ltb remote_machine_id (2 ^ 31)
    then aborted
    else if not (leb (end + 8) recv_size)
    then fault
    else if get_bytes 8 (from end f) == mem_store_meta_end
    then (with_backup >>= λ n. ok (some remote_machine_id, n))
    else ok (none, m)

-- The lookups, which assert that the table is known.
unfoldable pub get_primary_hash_meta : MetaManager → ℕ → Run HashMeta
get_primary_hash_meta m table_id = elim (m.primary_hash_metas table_id) [
  | none ↦ aborted
  | some t ↦ ok t
]

unfoldable pub get_primary_node_id : MetaManager → ℕ → Run ℕ
get_primary_node_id m table_id = elim (m.primary_table_nodes table_id) [
  | none ↦ aborted
  | some n ↦ ok n
]

-- What the server tells of a table: the getters of `HashStore` and the constructor of `HashMeta`.
unfoldable pub meta_of : HashStore → HashMeta
meta_of s = record {
  table_id = s.table_id;
  data_ptr = s.data_ptr;
  base_off = s.base_off;
  bucket_num = s.bucket_num;
  node_size = hash_node_size;
}
