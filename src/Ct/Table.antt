-- ===== src/Ct/Table.antt =====
-- core/util/ct.h: the making of bucket heads, and the operations of the table.
mod Heads
mod Init
mod Store
pub mod Insert
pub mod Delete
pub mod Find
pub mod Refines
use disaggregate_metadata_se.Base.{
  ℕ, zero, suc, ◌+◌, ◌*◌, ◌%◌, ◌^◌, Bool, true, false, not, Option, none, some, ◌==◌, leb, ltb,
  if◌then◌else◌, update, add64, sub64,
}
use disaggregate_metadata_se.Base.Run.{Run, ok, aborted, fault, out_of_fuel, ◌>>=◌}
use disaggregate_metadata_se.Ct.{
  Ct, Node, Searched, search_node, set_next, points, allocate_node, dummy_node, dummy_key,
  regular_node, regular_key, with_bucket, get_bucket_head_by_index, get_bucket_parent, bucket_size,
  k_max_bucket_size,
}

pub record Placed : Type 0 where
  pub inserted : Bool
  -- `new_head`, or the head that is there already
  pub real_head : ℕ
  pub ct : Ct

pub insert_dummy_loop : ℕ → Ct → ℕ → ℕ → Run Placed
insert_dummy_loop zero ct parent_head new_head = out_of_fuel
insert_dummy_loop (suc fuel) ct parent_head new_head =
    search_node ct parent_head (ct.heap new_head) >>= λ r.
    let stored = set_next r.ct new_head r.cur in
    let linked =
      ok (record { inserted = true; real_head = new_head; ct = set_next stored r.prev new_head }) in
    let again = insert_dummy_loop fuel stored parent_head new_head in
    if r.found
    then ok (record { inserted = false; real_head = r.cur; ct = r.ct })
    else if points stored r.prev r.cur
    then linked
    else again

pub insert_dummy_node : Ct → ℕ → ℕ → Run Placed
unfolding insert_dummy_loop
insert_dummy_node ct parent_head new_head = insert_dummy_loop ct.brk ct parent_head new_head

pub record Head : Type 0 where
  pub head : ℕ
  pub ct : Ct

-- The last part of InitializeBucket, once the path is allocated
pub make_head : Ct → ℕ → ℕ → Run Head
unfolding insert_dummy_node dummy_node dummy_key
make_head ct bucket_index parent_head =
    let head = get_bucket_head_by_index ct.segments bucket_index in
    let made = insert_dummy_node (allocate_node ct (dummy_node bucket_index)) parent_head ct.brk in
    let stored = made >>= λ r. ok (
      if r.inserted
      then record {
        head = ct.brk;
        ct = record r.ct { segments = with_bucket r.ct.segments bucket_index (λ q. ct.brk) };
      }
      else record { head = r.real_head; ct = r.ct }) in
    if head == 0 then stored else ok (record { head = head; ct = ct })

pub initialize_bucket : ℕ → Ct → ℕ → Run Head
unfolding make_head get_bucket_parent get_bucket_head_by_index with_bucket
initialize_bucket zero ct bucket_index = out_of_fuel
initialize_bucket (suc fuel) ct bucket_index =
    let parent_index = get_bucket_parent bucket_index in
    let parent_head = get_bucket_head_by_index ct.segments parent_index in
    let made = initialize_bucket fuel ct parent_index in
    let parent : Run Head =
      if parent_head == 0 then made else ok (record { head = parent_head; ct = ct }) in
    parent >>= λ r.
    make_head (record r.ct { segments = with_bucket r.ct.segments bucket_index (λ q. q) })
      bucket_index r.head

pub get_bucket_head_by_hash : Ct → ℕ → Run Head
unfolding initialize_bucket get_bucket_head_by_index
get_bucket_head_by_hash ct hash =
    let bucket_index = hash % bucket_size ct in
    let head = get_bucket_head_by_index ct.segments bucket_index in
    if head == 0 then initialize_bucket 65 ct bucket_index else ok (record { head = head; ct = ct })

pub record Inserted : Type 0 where
  pub inserted : Bool
  pub ct : Ct

-- `size_.fetch_add(1) + 1`, and twice as many buckets where the load factor of 1 / 2 is passed
pub grow : Ct → Run Inserted
unfolding bucket_size
grow ct =
    let size = add64 ct.size 1 in
    let counted = record ct { size = size } in
    let grown = record counted { power_of_2 = ct.power_of_2 + 1 } in
    if ltb (2 ^ ct.power_of_2) (2 * size)
    then if leb (bucket_size grown) k_max_bucket_size
      then ok (record { inserted = true; ct = grown })
      else aborted
    else ok (record { inserted = true; ct = counted })

abbrev pub set_value : Ct → ℕ → Option ℕ → Ct
set_value ct p v = record ct { heap = update ct.heap p (record (ct.heap p) { value = v }) }

pub insert_loop : ℕ → Ct → ℕ → ℕ → Run Inserted
unfolding grow
insert_loop zero ct head new_node = out_of_fuel
insert_loop (suc fuel) ct head new_node = search_node ct head (ct.heap new_node) >>= λ r.
    let stored = set_next r.ct new_node r.cur in
    let exchanged = set_value r.ct r.cur (r.ct.heap new_node).value in
    let again = insert_loop fuel stored head new_node in
    if r.found
    then ok (record { inserted = false; ct = exchanged })
    else if points stored r.prev r.cur
    then grow (set_next stored r.prev new_node)
    else again

pub insert_regular_node : Ct → ℕ → ℕ → Run Inserted
unfolding insert_loop
insert_regular_node ct head new_node = insert_loop ct.brk ct head new_node

pub data Deleted : Type 0 where
  gone : Ct → Deleted
  absent : Ct → Deleted

abbrev pub set_mark : Ct → ℕ → Ct
set_mark ct p = record ct { heap = update ct.heap p (record (ct.heap p) { marked = true }) }

-- The outer loop; the inner one goes on while the node found is marked.
pub delete_loop : ℕ → Ct → ℕ → Node → Run Deleted
delete_loop zero ct head node = out_of_fuel
delete_loop (suc fuel) ct head node = search_node ct head node >>= λ r.
    let next = (r.ct.heap r.cur).next in
    let marked = set_mark r.ct r.cur in
    let unlinked = set_next (record marked { size = sub64 marked.size 1 }) r.prev next in
    let again = delete_loop fuel r.ct head node in
    let searched = search_node marked head node >>= λ s. ok (gone s.ct) in
    if not r.found
    then ok (absent r.ct)
    else if (r.ct.heap r.cur).marked
    then again
    else if points marked r.prev r.cur
    then ok (gone unlinked)
    else searched

pub delete_node : Ct → ℕ → Node → Run Deleted
unfolding delete_loop
delete_node ct head node = delete_loop ct.brk ct head node

-- `none` where the key is not found
pub record Found : Type 0 where
  pub value : Option ℕ
  pub ct : Ct

-- `*value_ptr`
abbrev pub load : Option ℕ → Run ℕ
load none = fault
load (some v) = ok v

-- The value read twice is the same, as no other thread writes.
pub find_node : Ct → ℕ → Node → Run Found
find_node ct head node = search_node ct head node >>= λ r.
    let value = load (r.ct.heap r.cur).value >>= λ v. ok (record { value = some v; ct = r.ct }) in
    if r.found then value else ok (record { value = none; ct = r.ct })

module _ (hash_func : ℕ → ℕ) where
  pub insert : Ct → ℕ → ℕ → Run Inserted
  insert ct key value =
      let hash = hash_func key in
      get_bucket_head_by_hash (allocate_node ct (regular_node hash key (some value))) hash >>= λ r.
      insert_regular_node r.ct r.head ct.brk

  pub delete : Ct → ℕ → Run Deleted
  delete ct key =
      let hash = hash_func key in
      get_bucket_head_by_hash ct hash >>= λ r. delete_node r.ct r.head (regular_node hash key none)

  pub find : Ct → ℕ → Run Found
  find ct key =
      let hash = hash_func key in
      get_bucket_head_by_hash ct hash >>= λ r. find_node r.ct r.head (regular_node hash key none)
