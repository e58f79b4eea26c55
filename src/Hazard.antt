-- ===== src/Hazard.antt =====
-- core/util/hazard_pointer.h: the pointers that a thread has marked, and the deletions put off until no
-- thread has them marked. The calls of the threads come one after the other. A pointer is a number and 0
-- is null; a record of the shared list is an address, since the links of the list never change but at
-- its head. A deletion function is a number, and to call it is to list the pointer with it.
pub mod Marks
pub mod System
mod Acquire
pub mod Spared
mod Tests
use disaggregate_metadata_se.Base.{
  ℕ, zero, suc, ◌+◌, ◌-◌, ◌*◌, ◌<◌, ◌≡◌, Bool, true, false, not, ◌&&◌, ◌||◌, Option, none, some,
  List, [], ◌∷◌, ◌++◌, ◌==◌, ltb, if◌then◌else◌, get_elem?, length, update, mem,
}
use disaggregate_metadata_se.Base.Run.{Run, ok, aborted, fault}

pub record InternalHazardPointer : Type 0 where
  pub flag : Bool
  pub ptr : ℕ

pub record HazardPointerList : Type 0 where
  -- from `head` along `next`
  pub records : List ℕ
  pub hps : ℕ → InternalHazardPointer
  pub size : ℕ
  -- the address of the next record that `new` makes
  pub brk : ℕ

-- The standard leaves the first state of a flag open.
pub new_hazard_pointer_list : Bool → HazardPointerList
new_hazard_pointer_list flag = record {
  records = 1 ∷ [];
  hps = λ p. record { flag = flag; ptr = 0 };
  size = 0;
  brk = 2;
}

pub record ReclaimNode : Type 0 where
  pub ptr : ℕ
  pub delete_func : ℕ

-- The nodes of the pool are alike, so it is their number; a node of the map has its key as `ptr`.
pub record Reclaimer : Type 0 where
  pub hp_list : List ℕ
  pub reclaim_map : List ReclaimNode
  pub reclaim_pool : ℕ

pub new_reclaimer : Reclaimer
new_reclaimer = record { hp_list = []; reclaim_map = []; reclaim_pool = 1 }

abbrev pub set_ptr : HazardPointerList → ℕ → ℕ → HazardPointerList
set_ptr g q ptr = record g { hps = update g.hps q (record (g.hps q) { ptr = ptr }) }

abbrev pub test_and_set : HazardPointerList → ℕ → HazardPointerList
test_and_set g q = record g { hps = update g.hps q (record (g.hps q) { flag = true }) }

-- The first idle record of the list
pub find_idle : (ℕ → InternalHazardPointer) → List ℕ → Option ℕ
find_idle hps [] = none
find_idle hps (q ∷ qs) = if not (hps q).flag then some q else find_idle hps qs

-- A new record, linked as the head of the list
pub push_record : HazardPointerList → HazardPointerList
push_record g = record {
  records = g.brk ∷ g.records;
  hps = update g.hps g.brk (record { flag = true; ptr = 0 });
  size = g.size + 1;
  brk = g.brk + 1;
}

pub record Acquired : Type 0 where
  pub hp : ℕ
  pub shared : HazardPointerList

abbrev acquire : HazardPointerList → Option ℕ → Acquired
acquire g none = record { hp = g.brk; shared = push_record g }
acquire g (some q) = record { hp = q; shared = test_and_set g q }

-- The caller appends the record to its list.
pub try_acquire_hazard_pointer : HazardPointerList → Acquired
unfolding find_idle push_record
try_acquire_hazard_pointer g = acquire g (find_idle g.hps g.records)

-- The loop over the records of the thread, from index `i`
pub find_null : (ℕ → InternalHazardPointer) → List ℕ → ℕ → Option (ℕ × ℕ)
find_null hps [] i = none
find_null hps (q ∷ qs) i = if (hps q).ptr == 0 then some (i, q) else find_null hps qs (suc i)

pub record Marked : Type 0 where
  -- `none` is HP_INDEX_NULL.
  pub index : Option ℕ
  pub shared : HazardPointerList
  pub reclaimer : Reclaimer

abbrev mark_at : HazardPointerList → Reclaimer → ℕ → Option (ℕ × ℕ) → Marked
mark_at g r ptr (some (i, q)) = record { index = some i; shared = set_ptr g q ptr; reclaimer = r }
mark_at g r ptr none =
    let a = try_acquire_hazard_pointer g in
    record {
      index = some (length r.hp_list);
      shared = set_ptr a.shared a.hp ptr;
      reclaimer = record r { hp_list = r.hp_list ++ a.hp ∷ [] };
    }

pub mark_hazard : HazardPointerList → Reclaimer → ℕ → Marked
unfolding try_acquire_hazard_pointer find_null
mark_hazard g r ptr =
    if ptr == 0
    then record { index = none; shared = g; reclaimer = r }
    else mark_at g r ptr (find_null g.hps r.hp_list 0)

abbrev unmark_at : HazardPointerList → Option ℕ → Run HazardPointerList
unmark_at g none = aborted
unmark_at g (some q) = ok (set_ptr g q 0)

-- The assertion is that the index is in the list.
pub unmark_hazard : HazardPointerList → Reclaimer → Option ℕ → Run HazardPointerList
unmark_hazard g r none = ok g
unmark_hazard g r (some i) = unmark_at g (get_elem? r.hp_list i)

abbrev pub ptr_at : HazardPointerList → Option ℕ → Run ℕ
ptr_at g none = aborted
ptr_at g (some q) = ok (g.hps q).ptr

pub get_hazard_ptr : HazardPointerList → Reclaimer → Option ℕ → Run ℕ
get_hazard_ptr g r none = ok 0
get_hazard_ptr g r (some i) = ptr_at g (get_elem? r.hp_list i)

-- `insert` does nothing on a key that is there.
pub insert_node : List ReclaimNode → ReclaimNode → List ReclaimNode
insert_node [] node = node ∷ []
insert_node (m ∷ ms) node = if m.ptr == node.ptr then m ∷ ms else m ∷ insert_node ms node

-- `Pop`, which makes a new node rather than take the last of the pool
pub pop : ℕ → ℕ
pop pool = if pool == 1 then 1 else pool - 1

pub reclaim_later : Reclaimer → ℕ → ℕ → Reclaimer
unfolding insert_node pop
reclaim_later r ptr func = record r {
  reclaim_map = insert_node r.reclaim_map (record { ptr = ptr; delete_func = func });
  reclaim_pool = pop r.reclaim_pool;
}

pub hazard_loop : (ℕ → InternalHazardPointer) → List ℕ → ℕ → Bool
hazard_loop hps [] ptr = false
hazard_loop hps (q ∷ qs) ptr = if (hps q).ptr == ptr then true else hazard_loop hps qs ptr

pub hazard : HazardPointerList → ℕ → Bool
unfolding hazard_loop
hazard g ptr = hazard_loop g.hps g.records ptr

-- `not_allow_delete_set`
pub collect : (ℕ → InternalHazardPointer) → List ℕ → List ℕ
collect hps [] = []
collect hps (q ∷ qs) =
    let rest = collect hps qs in if (hps q).ptr == 0 then rest else (hps q).ptr ∷ rest

pub record Reclaimed : Type 0 where
  pub reclaimer : Reclaimer
  pub deleted : List ReclaimNode

-- The loop over the map, whose nodes deleted go to the pool
pub sweep : List ℕ → Reclaimer → List ReclaimNode → Reclaimed
sweep not_allow r [] = record { reclaimer = record r { reclaim_map = [] }; deleted = [] }
sweep not_allow r (node ∷ nodes) =
    let deleting = sweep not_allow (record r { reclaim_pool = r.reclaim_pool + 1 }) nodes in
    let keeping = sweep not_allow r nodes in
    if mem node.ptr not_allow
    then record keeping {
      reclaimer = record keeping.reclaimer { reclaim_map = node ∷ keeping.reclaimer.reclaim_map };
    }
    else record deleting { deleted = node ∷ deleting.deleted }

pub reclaim_no_hazard_pointer : HazardPointerList → Reclaimer → Reclaimed
unfolding collect sweep
reclaim_no_hazard_pointer g r =
    if ltb (length r.reclaim_map) (4 * g.size)
    then record { reclaimer = r; deleted = [] }
    else sweep (collect g.hps g.records) r r.reclaim_map
