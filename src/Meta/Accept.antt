-- ===== src/Meta/Accept.antt =====
-- What the client learns of a message in the layout that it reads.
use mathlib.Core.List.{append_assoc, append-nil}
use disaggregate_metadata_se.Base.{
  ℕ, ◌+◌, ◌*◌, ◌<◌, ◌≤◌, ◌≡◌, refl, sym, ap, ◌∙◌, List, [], ◌∷◌, ◌++◌, length, length-append, ltb,
  lt→ltb, le→leb, ==_of, some, true, add64, mul64, leb, if◌then◌else◌, arith, Option, ◌==◌, ==_iff,
  Bool-cases, inl, inr, replicate,
}
use disaggregate_metadata_se.Base.Run.{ok, fault, Returns}
use disaggregate_metadata_se.Meta.{
  MetaManager, HashMeta, recv_size, mem_store_meta_end, put_bytes, get_bytes, from, received,
  meta_bytes, all_meta_bytes, hash_meta_size, get_mem_store_meta, primary_loop, backup_loop,
  add_primary, add_backup, max_db_table_num,
}
use disaggregate_metadata_se.Meta.Bytes.{
  IsMeta, get_meta-bytes, from-meta, from-all_meta, from-received, length-all_meta_bytes,
}

-- The counts of primary and backup tables, the machine, the primaries, the backups, and the end mark.
abbrev pub client_message : ℕ → List HashMeta → List HashMeta → List ℕ
client_message machine ps bs =
    put_bytes 8 (length ps)
    ++ put_bytes 8 (length bs)
    ++ put_bytes 4 machine
    ++ (all_meta_bytes ps ++ (all_meta_bytes bs ++ put_bytes 8 mem_store_meta_end))

-- The tables of an id, and the last of them
abbrev pub with_id : ℕ → List HashMeta → List HashMeta
with_id id [] = []
with_id id (t ∷ ts) = if id == t.table_id then t ∷ with_id id ts else with_id id ts

abbrev pub last_or : Option HashMeta → List HashMeta → Option HashMeta
last_or o [] = o
last_or o (t ∷ ts) = last_or (some t) ts

-- The node of a table that has an id
abbrev pub node_or : Option ℕ → ℕ → List HashMeta → Option ℕ
node_or o machine [] = o
node_or o machine (t ∷ ts) = some machine

-- The manager `n` knows besides what `m` does the primary tables `ps` and the backup tables `bs` of the
-- machine.
pub record Learns (machine : ℕ) (ps bs : List HashMeta) (m n : MetaManager) : Type 0 where
  pub primary_meta :
      (id : ℕ) → n.primary_hash_metas id ≡ last_or (m.primary_hash_metas id) (with_id id ps)
  pub primary_node :
      (id : ℕ)
      → n.primary_table_nodes id ≡ node_or (m.primary_table_nodes id) machine (with_id id ps)
  pub backup_metas : (id : ℕ) → n.backup_hash_metas id ≡ m.backup_hash_metas id ++ with_id id bs
  pub backup_nodes :
      (id : ℕ)
      → n.backup_table_nodes id
        ≡ m.backup_table_nodes id ++ replicate (length (with_id id bs)) machine

abbrev pub learn_primary : ℕ → List HashMeta → MetaManager → MetaManager
learn_primary machine [] m = m
learn_primary machine (t ∷ ts) m = learn_primary machine ts (add_primary machine t m)

abbrev pub learn_backup : ℕ → List HashMeta → MetaManager → MetaManager
learn_backup machine [] m = m
learn_backup machine (t ∷ ts) m = learn_backup machine ts (add_backup machine t m)

node_or-some : (machine : ℕ) (ts : List HashMeta) → node_or (some machine) machine ts ≡ some machine
node_or-some machine [] = refl
node_or-some machine (t ∷ ts) = refl

primary-Learns :
    (machine : ℕ) (ps : List HashMeta) (m : MetaManager)
    → Learns machine ps [] m (learn_primary machine ps m)
primary-Learns machine [] m = record {
  primary_meta = λ id. refl;
  primary_node = λ id. refl;
  backup_metas = λ id. sym (append-nil (m.backup_hash_metas id));
  backup_nodes = λ id. sym (append-nil (m.backup_table_nodes id));
}
primary-Learns machine (t ∷ ts) m =
    let w = primary-Learns machine ts (add_primary machine t m) in
    record {
      primary_meta = λ id. elim (Bool-cases (id == t.table_id)) [
        | inl e ↦ w.primary_meta id ∙ rw e refl
        | inr e ↦ w.primary_meta id ∙ rw e refl
      ];
      primary_node = λ id. elim (Bool-cases (id == t.table_id)) [
        | inl e ↦ w.primary_node id ∙ rw e (node_or-some machine (with_id id ts))
        | inr e ↦ w.primary_node id ∙ rw e refl
      ];
      backup_metas = w.backup_metas;
      backup_nodes = w.backup_nodes;
    }

-- What the backups add leaves the primaries.
backup-Learns :
    (machine : ℕ) (bs : List HashMeta) (m : MetaManager)
    → Learns machine [] bs m (learn_backup machine bs m)
backup-Learns machine [] m = record {
  primary_meta = λ id. refl;
  primary_node = λ id. refl;
  backup_metas = λ id. sym (append-nil (m.backup_hash_metas id));
  backup_nodes = λ id. sym (append-nil (m.backup_table_nodes id));
}
backup-Learns machine (t ∷ ts) m =
    let w = backup-Learns machine ts (add_backup machine t m) in
    record {
      primary_meta = w.primary_meta;
      primary_node = w.primary_node;
      backup_metas = λ id. elim (Bool-cases (id == t.table_id)) [
        | inl e ↦
            let is : id ≡ t.table_id = (==_iff id t.table_id).0 e in
            w.backup_metas id
            ∙ rw e (
                ap (λ z. (m.backup_hash_metas z ++ t ∷ []) ++ with_id id ts) (sym is)
                ∙ append_assoc (m.backup_hash_metas id) (t ∷ []) (with_id id ts))
        | inr e ↦ w.backup_metas id ∙ rw e refl
      ];
      backup_nodes = λ id. elim (Bool-cases (id == t.table_id)) [
        | inl e ↦
            let is : id ≡ t.table_id = (==_iff id t.table_id).0 e in
            let nodes = replicate (length (with_id id ts)) machine in
            w.backup_nodes id
            ∙ rw e (
                ap (λ z. (m.backup_table_nodes z ++ machine ∷ []) ++ nodes) (sym is)
                ∙ append_assoc (m.backup_table_nodes id) (machine ∷ []) nodes)
        | inr e ↦ w.backup_nodes id ∙ rw e refl
      ];
    }

both-Learn :
    (machine : ℕ) (ps bs : List HashMeta) (m : MetaManager)
    → Learns machine ps bs m (learn_backup machine bs (learn_primary machine ps m))
both-Learn machine ps bs m =
    let v = primary-Learns machine ps m in
    let w = backup-Learns machine bs (learn_primary machine ps m) in
    record {
      primary_meta = λ id. w.primary_meta id ∙ v.primary_meta id;
      primary_node = λ id. w.primary_node id ∙ v.primary_node id;
      backup_metas = λ id.
          w.backup_metas id
          ∙ ap (λ l. l ++ with_id id bs) (v.backup_metas id ∙ append-nil (m.backup_hash_metas id));
      backup_nodes = λ id.
          w.backup_nodes id
          ∙ ap (λ l. l ++ replicate (length (with_id id bs)) machine)
              (v.backup_nodes id ∙ append-nil (m.backup_table_nodes id));
    }

abbrev pub AllMeta : List HashMeta → Type 0
AllMeta [] = Unit
AllMeta (t ∷ ts) = IsMeta t × AllMeta ts

-- The ids of backup tables index arrays.
abbrev pub InArrays : List HashMeta → Type 0
InArrays [] = Unit
InArrays (t ∷ ts) = (t.table_id < max_db_table_num) × InArrays ts

primary_loop-learn :
    (machine : ℕ) (ts : List HashMeta) (rest : List ℕ) (f : ℕ → ℕ) (m : MetaManager)
    → AllMeta ts
    → primary_loop (length ts) machine (received (all_meta_bytes ts ++ rest) f) m
      ≡ learn_primary machine ts m
unfolding primary_loop meta_bytes
primary_loop-learn machine [] rest f m w = refl
primary_loop-learn machine (t ∷ ts) rest f m w =
    (λ i.
      primary_loop (length ts) machine (from-meta t (all_meta_bytes ts ++ rest) f i)
        (add_primary machine (get_meta-bytes t (all_meta_bytes ts ++ rest) f w.0 i) m))
    ∙ primary_loop-learn machine ts rest (from hash_meta_size f) (add_primary machine t m) w.1

backup_loop-learn :
    (machine : ℕ) (ts : List HashMeta) (rest : List ℕ) (f : ℕ → ℕ) (m : MetaManager)
    → AllMeta ts
    → InArrays ts
    → backup_loop (length ts) machine (received (all_meta_bytes ts ++ rest) f) m
      ≡ ok (learn_backup machine ts m)
unfolding backup_loop meta_bytes
backup_loop-learn machine [] rest f m w i = refl
backup_loop-learn machine (t ∷ ts) rest f m w i =
    (λ k.
      if ltb (get_meta-bytes t (all_meta_bytes ts ++ rest) f w.0 k).table_id max_db_table_num
      then backup_loop (length ts) machine (from-meta t (all_meta_bytes ts ++ rest) f k)
          (add_backup machine (get_meta-bytes t (all_meta_bytes ts ++ rest) f w.0 k) m)
      else fault)
    ∙ rw (lt→ltb t.table_id max_db_table_num i.0)
        (backup_loop-learn machine ts rest (from hash_meta_size f) (add_backup machine t m) w.1 i.1)

accepts :
    (f : ℕ → ℕ) (m n : MetaManager) (p b machine : ℕ)
    → get_bytes 8 f ≡ p
    → get_bytes 8 (from 8 f) ≡ b
    → get_bytes 4 (from 16 f) ≡ machine
    → machine < 100
    → 28 + hash_meta_size * (p + b) ≤ recv_size
    → get_bytes 8 (from (20 + hash_meta_size * (p + b)) f) ≡ mem_store_meta_end
    → backup_loop b machine
        (from (hash_meta_size * p) (from 20 f))
        (primary_loop p machine (from 20 f) m)
      ≡ ok n
    → get_mem_store_meta f m ≡ ok (some machine, n)
unfolding get_mem_store_meta
accepts f m n p b machine e_p e_b e_m lt fits mark learnt =
    let end : add64 20 (mul64 hash_meta_size (add64 p b)) ≡ 20 + hash_meta_size * (p + b) =
      omega arith in
    let inside : leb (20 + hash_meta_size * (p + b) + 8) recv_size ≡ true =
      le→leb _ _ (omega arith) in
    rw (e_p, e_b, e_m, lt→ltb machine 100 lt, end, inside, ==_of _ _ mark, learnt)

module _ (machine : ℕ) (ps bs : List HashMeta) (junk : ℕ → ℕ) (m : MetaManager)
    (known : machine < 100) (fits : 28 + hash_meta_size * (length ps + length bs) ≤ recv_size)
    (words_p : AllMeta ps) (words_b : AllMeta bs) (arrays : InArrays bs) where
  abbrev memory : ℕ → ℕ
  memory = received (client_message machine ps bs) junk

  -- Past the three numbers, past the primaries, and past the backups.
  abbrev mark_bytes : List ℕ
  mark_bytes = put_bytes 8 mem_store_meta_end

  abbrev head_bytes : List ℕ
  head_bytes = put_bytes 8 (length ps) ++ put_bytes 8 (length bs) ++ put_bytes 4 machine

  tables :
      from 20 memory
      ≡ received (all_meta_bytes ps ++ (all_meta_bytes bs ++ mark_bytes)) (from 20 junk)
  tables =
      from-received 20 head_bytes (all_meta_bytes ps ++ (all_meta_bytes bs ++ mark_bytes)) junk refl

  backups :
      from (hash_meta_size * length ps) (from 20 memory)
      ≡ received
          (all_meta_bytes bs ++ mark_bytes)
          (from (hash_meta_size * length ps) (from 20 junk))
  backups =
      ap (from (hash_meta_size * length ps)) tables
      ∙ from-all_meta ps (all_meta_bytes bs ++ mark_bytes) (from 20 junk)

  mark :
      get_bytes 8 (from (20 + hash_meta_size * (length ps + length bs)) memory) ≡ mem_store_meta_end
  mark =
      let n = 20 + hash_meta_size * (length ps + length bs) in
      let front = head_bytes ++ (all_meta_bytes ps ++ all_meta_bytes bs) in
      let whole : client_message machine ps bs ≡ front ++ mark_bytes =
        ap (λ r. head_bytes ++ r)
          (sym (append_assoc (all_meta_bytes ps) (all_meta_bytes bs) mark_bytes)) in
      let size : length front ≡ n = omega (
        arith,
        length-append (all_meta_bytes ps) (all_meta_bytes bs),
        length-all_meta_bytes ps,
        length-all_meta_bytes bs,
      ) in
      ap (λ r. get_bytes 8 (from n (received r junk))) whole
      ∙ ap (get_bytes 8) (from-received n front mark_bytes junk size)
      ∙ omega arith

  learnt :
      get_mem_store_meta memory m
      ≡ ok (some machine, learn_backup machine bs (learn_primary machine ps m))
  learnt =
      accepts memory m (learn_backup machine bs (learn_primary machine ps m)) (length ps)
        (length bs) machine (omega arith) (omega arith) (omega arith) known fits mark
        ((λ k.
            backup_loop (length bs) machine (backups k)
              (primary_loop (length ps) machine (tables k) m))
          ∙ ap
              (backup_loop (length bs) machine (
                received (all_meta_bytes bs ++ mark_bytes)
                  (from (hash_meta_size * length ps) (from 20 junk))))
              (primary_loop-learn machine ps (all_meta_bytes bs ++ mark_bytes) (from 20 junk) m
                words_p)
          ∙ backup_loop-learn machine bs mark_bytes
              (from (hash_meta_size * length ps) (from 20 junk)) (learn_primary machine ps m)
              words_b arrays)

  -- Of a message in the layout that the client reads, of a machine id below 100, tables that fit
  -- the buffer, members below 2^64 and backup ids within the arrays, the client reports the
  -- machine's id and learns, for every table id: the meta data of the last primary table of the
  -- message with that id and the machine as its node, or what it knew where there is none; and
  -- behind the backups that it knew the message's backup tables with that id in their order, each
  -- with the machine.
  pub client_message-learn :
      Returns (get_mem_store_meta memory m) λ r. (r.0 ≡ some machine) × Learns machine ps bs m r.1
  client_message-learn = (
    (some machine, learn_backup machine bs (learn_primary machine ps m)),
    learnt,
    (refl, both-Learn machine ps bs m),
  )
