-- ===== src/Meta/Tests.antt =====
-- The messages of one table: the server's, which the client does not accept, and the client's own layout.
use disaggregate_metadata_se.Base.{ℕ, ◌^◌, ◌≤◌, ◌≡◌, ◌≢◌, ◌⊎◌, none, some, [], ◌∷◌, length, arith}
use disaggregate_metadata_se.Base.Run.{ok, fault, Returns}
use disaggregate_metadata_se.Meta.{
  HashMeta, MetaManager, received, get_bytes, from, prepare_hash_meta, get_mem_store_meta,
  mem_store_meta_end,
}
use disaggregate_metadata_se.Meta.Bytes.{IsMeta}
use disaggregate_metadata_se.Meta.Layout.{never_accepted}
use disaggregate_metadata_se.Meta.Accept.{client_message, Learns, client_message-learn}

abbrev table : ℕ → HashMeta
table id = record {
  table_id = id;
  data_ptr = 2 ^ 40;
  base_off = 64;
  bucket_num = 1000;
  node_size = 15848;
}

abbrev nothing : MetaManager
nothing = record {
  primary_hash_metas = λ _. none;
  primary_table_nodes = λ _. none;
  backup_hash_metas = λ _. [];
  backup_table_nodes = λ _. [];
}

abbrev zeros : ℕ → ℕ
zeros = λ _. 0

table_3-IsMeta : IsMeta (table 3)
table_3-IsMeta = record {
  table_id_lt = omega arith;
  data_ptr_lt = omega arith;
  base_off_lt = omega arith;
  bucket_num_lt = omega arith;
  node_size_lt = omega arith;
}

table_4-IsMeta : IsMeta (table 4)
table_4-IsMeta = record {
  table_id_lt = omega arith;
  data_ptr_lt = omega arith;
  base_off_lt = omega arith;
  bucket_num_lt = omega arith;
  node_size_lt = omega arith;
}

no_stray :
    (i : ℕ)
    → length (prepare_hash_meta 2 (table 0 ∷ [])) ≤ i
    → get_bytes 8 (from i zeros) ≢ mem_store_meta_end
no_stray i le e = omega (arith, e)

never_accepted_example :
    (get_mem_store_meta (received (prepare_hash_meta 2 (table 0 ∷ [])) zeros) nothing ≡ fault)
    ⊎ (get_mem_store_meta (received (prepare_hash_meta 2 (table 0 ∷ [])) zeros) nothing
        ≡ ok (none, nothing))
never_accepted_example =
    never_accepted 2 (table 0) [] zeros (omega arith) (omega arith) (omega arith) nothing no_stray

client_message-learn_example :
    Returns
      (get_mem_store_meta (received (client_message 2 (table 3 ∷ []) (table 4 ∷ [])) zeros) nothing)
      λ r. (r.0 ≡ some 2) × Learns 2 (table 3 ∷ []) (table 4 ∷ []) nothing r.1
client_message-learn_example =
    client_message-learn 2 (table 3 ∷ []) (table 4 ∷ []) zeros nothing (omega arith) (omega arith)
      (table_3-IsMeta, tt) (table_4-IsMeta, tt) (omega arith, tt)
