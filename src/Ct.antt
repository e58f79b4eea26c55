-- ===== src/Ct.antt =====
-- core/util/ct.h: the hash table on one list in the order of the reversed hashes, of one thread.
-- A key is a 64-bit word and a value a number; the hash function is a parameter, as in the template.
-- Pointers are numbers, 0 is null, and a freed node's address is not used again. `pow` and the shifts
-- are powers, `x & (2 ^ k - 1)` is a remainder. A compare_exchange does what it does where no other
-- thread interferes, and compares all the same.
pub mod Reverse
mod Rank
mod Links
mod Search
mod Relink
mod Unlink
mod Revalue
mod Directory
mod State
mod Link
pub mod Table
mod Tests
use disaggregate_metadata_se.Base.{
  ℕ, zero, suc, ◌+◌, ◌-◌, ◌*◌, ◌/◌, ◌%◌, ◌^◌, Bool, true, false, not, ◌&&◌, ◌||◌, Option, none,
  some, List, [], ◌∷◌, ◌++◌, ◌==◌, leb, ltb, if◌then◌else◌, update, bit_or, add64, sub64,
}
use disaggregate_metadata_se.Base.Run.{Run, ok, out_of_fuel}

abbrev pub k_segment_size : ℕ
k_segment_size = 64

abbrev pub k_max_bucket_size : ℕ
k_max_bucket_size = k_segment_size ^ 4

-- The macros R2, R4, R6 and the table of the reversed bytes
abbrev r2 : ℕ → List ℕ
r2 n = n ∷ (n + 2 * 64) ∷ (n + 1 * 64) ∷ (n + 3 * 64) ∷ []

abbrev r4 : ℕ → List ℕ
r4 n = r2 n ++ r2 (n + 2 * 16) ++ r2 (n + 1 * 16) ++ r2 (n + 3 * 16)

abbrev r6 : ℕ → List ℕ
r6 n = r4 n ++ r4 (n + 2 * 4) ++ r4 (n + 1 * 4) ++ r4 (n + 3 * 4)

at_or : ℕ → List ℕ → ℕ → ℕ
at_or d [] i = d
at_or d (x ∷ xs) zero = x
at_or d (x ∷ xs) (suc i) = at_or d xs i

pub reverse8bits : ℕ → ℕ
unfolding at_or
reverse8bits i = at_or 0 (r6 0 ++ r6 2 ++ r6 1 ++ r6 3) i

pub reverse : ℕ → ℕ
reverse hash =
    let byte = λ (i : ℕ). reverse8bits ((hash / 2 ^ (8 * i)) % 256) * 2 ^ (56 - 8 * i) in
    bit_or
      (bit_or
        (bit_or (bit_or (bit_or (bit_or (bit_or (byte 0) (byte 1)) (byte 2)) (byte 3)) (byte 4))
          (byte 5))
        (byte 6))
      (byte 7)

-- `hash | 0x8000000000000000`, on a 64-bit word
abbrev pub set_msb : ℕ → ℕ
set_msb hash = hash % 2 ^ 63 + 2 ^ 63

pub regular_key : ℕ → ℕ
regular_key hash = reverse (set_msb hash)

pub dummy_key : ℕ → ℕ
dummy_key hash = reverse hash

-- A node of either kind: a dummy has no key or value. The lowest bit of the pointer `next` is `marked`.
pub record Node : Type 0 where
  pub hash : ℕ
  pub reverse_hash : ℕ
  pub next : ℕ
  pub marked : Bool
  pub dummy : Bool
  pub key : ℕ
  pub value : Option ℕ

pub dummy_node : ℕ → Node
dummy_node bucket_index = record {
  hash = bucket_index;
  reverse_hash = dummy_key bucket_index;
  next = 0;
  marked = false;
  dummy = true;
  key = 0;
  value = none;
}

-- `hash` is `hash_func(key)`
pub regular_node : ℕ → ℕ → Option ℕ → Node
regular_node hash key value = record {
  hash = hash;
  reverse_hash = regular_key hash;
  next = 0;
  marked = false;
  dummy = false;
  key = key;
  value = value;
}

pub less : Node → Node → Bool
less node1 node2 =
    if not (node1.reverse_hash == node2.reverse_hash)
    then ltb node1.reverse_hash node2.reverse_hash
    else if node1.dummy || node2.dummy
    then false
    else ltb node1.key node2.key

pub greater_or_equals : Node → Node → Bool
unfolding less
greater_or_equals node1 node2 = not (less node1 node2)

pub equals : Node → Node → Bool
unfolding less
equals node1 node2 = not (less node1 node2) && not (less node2 node1)

-- An array of segments of which each has or has not got its sub-array, and an array of buckets.
abbrev pub Segments : Type 0 → Type 0
Segments A = ℕ → Option A

abbrev pub Buckets : Type 0
Buckets = ℕ → ℕ

abbrev pub Directory : Type 0
Directory = Segments (Segments (Segments Buckets))

pub record Ct : Type 0 where
  pub power_of_2 : ℕ
  pub size : ℕ
  pub segments : Directory
  pub head : ℕ
  pub heap : ℕ → Node
  -- the address of the next node that `new` makes
  pub brk : ℕ

abbrev pub new_segments : {A : Type 0} → Segments A
new_segments i = none

abbrev pub new_buckets : Buckets
new_buckets i = 0

-- `bucket_index / kSegmentSize^i % kSegmentSize`
abbrev pub digit : ℕ → ℕ → ℕ
digit i bucket_index = bucket_index / k_segment_size ^ i % k_segment_size

pub new_ct : Ct
unfolding dummy_node dummy_key
new_ct = record {
  power_of_2 = 1;
  size = 0;
  segments =
      update new_segments 0 (
        some
          (update new_segments 0 (some (update new_segments 0 (some (update new_buckets 0 1))))));
  head = 1;
  heap = λ p. dummy_node 0;
  brk = 2;
}

pub bucket_size : Ct → ℕ
bucket_size ct = 2 ^ ct.power_of_2

-- `__builtin_clzl` on the lowest `n` bits
pub clz : ℕ → ℕ → ℕ
clz zero x = 0
clz (suc n) x = if ltb x (2 ^ n) then suc (clz n x) else 0

-- The bit at hand is set, so to mask it away is to subtract it.
pub get_bucket_parent : ℕ → ℕ
unfolding clz
get_bucket_parent bucket_index = bucket_index - 2 ^ 63 / 2 ^ clz 64 bucket_index

abbrev pub sub_array {ℓ} : {A B : Type ℓ} → Option A → (A → Option B) → Option B
sub_array none f = none
sub_array (some a) f = f a

-- Null where a segment or the array of buckets is missing
pub head_at : Option Buckets → ℕ → ℕ
head_at none i = 0
head_at (some buckets) i = buckets i

pub get_bucket_head_by_index : Directory → ℕ → ℕ
unfolding head_at
get_bucket_head_by_index segments b =
    head_at
      (sub_array (segments (digit 3 b))
        λ level2. sub_array (level2 (digit 2 b)) λ level3. level3 (digit 1 b))
      (digit 0 b)

abbrev pub get_or_new {ℓ} : {A : Type ℓ} → Option A → A → A
get_or_new none a = a
get_or_new (some b) a = b

-- A missing sub-array is allocated and linked; then `f` goes on in it.
abbrev pub allocate : {A : Type 0} → Segments A → ℕ → A → (A → A) → Segments A
allocate segments i fresh f = update segments i (some (f (get_or_new (segments i) fresh)))

-- The path to a bucket, allocated where it is missing, and `f` on the bucket
pub with_bucket : Directory → ℕ → (ℕ → ℕ) → Directory
with_bucket segments b f = allocate segments (digit 3 b) new_segments λ level2.
    allocate level2 (digit 2 b) new_segments λ level3.
      allocate level3 (digit 1 b) new_buckets
        λ buckets. update buckets (digit 0 b) (f (buckets (digit 0 b)))

abbrev pub set_next : Ct → ℕ → ℕ → Ct
set_next ct p q = record ct { heap = update ct.heap p (record (ct.heap p) { next = q }) }

-- Whether the word `p->next` is the unmarked pointer `q`
abbrev pub points : Ct → ℕ → ℕ → Bool
points ct p q = (ct.heap p).next == q && not (ct.heap p).marked

-- `new`: the address is the old `brk`.
abbrev pub allocate_node : Ct → Node → Ct
allocate_node ct n = record ct { heap = update ct.heap ct.brk n; brk = ct.brk + 1 }

pub record Searched : Type 0 where
  pub found : Bool
  pub prev : ℕ
  pub cur : ℕ
  pub ct : Ct

-- From `while (true)`; the label `try_again` is the call with the first node.
pub search_loop : ℕ → Ct → ℕ → Node → ℕ → ℕ → Run Searched
unfolding greater_or_equals equals
search_loop zero ct head node prev cur = out_of_fuel
search_loop (suc fuel) ct head node prev cur =
    let try_again = search_loop fuel ct head node head (ct.heap head).next in
    let next = (ct.heap cur).next in
    let unlinked = set_next (record ct { size = sub64 ct.size 1 }) prev next in
    let unlink = search_loop fuel unlinked head node prev next in
    let advance = search_loop fuel ct head node cur next in
    if not (points ct prev cur)
    then try_again
    else if cur == 0
    then ok (record { found = false; prev = prev; cur = cur; ct = ct })
    else if (ct.heap cur).marked
    then if points ct prev cur then unlink else try_again
    else if not (points ct prev cur)
    then try_again
    else if greater_or_equals (ct.heap cur) node
    then ok (record { found = equals (ct.heap cur) node; prev = prev; cur = cur; ct = ct })
    else advance

pub search_node : Ct → ℕ → Node → Run Searched
unfolding search_loop
search_node ct head node = search_loop ct.brk ct head node head (ct.heap head).next
