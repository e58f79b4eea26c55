-- ===== src/Meta/Bytes.antt =====
-- Words and bytes: what is written reads back, wherever it stands in the memory.
use mathlib.Core.Path.{subst}
use native.Mathlib.Nat.{pow-zero, pow-suc}
use disaggregate_metadata_se.Base.{
  ℕ, zero, suc, ◌+◌, ◌*◌, ◌/◌, ◌^◌, ◌<◌, ◌≤◌, ◌≡◌, refl, sym, ap, ◌∙◌, List, [], ◌∷◌, ◌++◌, length,
  arith,
}
use disaggregate_metadata_se.Meta.{
  HashMeta, put_bytes, get_bytes, from, received, meta_bytes, get_meta, all_meta_bytes,
  hash_meta_size,
}

pub length-put_bytes : (k v : ℕ) → length (put_bytes k v) ≡ k
length-put_bytes zero v = refl
length-put_bytes (suc k) v = ap suc (length-put_bytes k (v / 256))

zero_add : (i : ℕ) → 0 + i ≡ i
zero_add i = omega arith

suc_add : (n i : ℕ) → suc n + i ≡ suc (n + i)
suc_add n i = omega arith

-- The memory behind a message is as it was, and the second part of a message starts where the first ends.
pub received-beyond :
    (xs : List ℕ) (junk : ℕ → ℕ) (i : ℕ) → length xs ≤ i → received xs junk i ≡ junk i
received-beyond [] junk i le = refl
received-beyond (x ∷ xs) junk zero le = absurd (omega arith)
received-beyond (x ∷ xs) junk (suc i) le = received-beyond xs (λ j. junk (suc j)) i (omega arith)

pub get_bytes-same : (k : ℕ) (f g : ℕ → ℕ) → ((i : ℕ) → f i ≡ g i) → get_bytes k f ≡ get_bytes k g
get_bytes-same zero f g e = refl
get_bytes-same (suc k) f g e =
    omega (arith, e 0, get_bytes-same k (λ i. f (suc i)) (λ i. g (suc i)) (λ i. e (suc i)))

pub get-put_bytes :
    (k v : ℕ) (rest : List ℕ) (junk : ℕ → ℕ)
    → v < 256 ^ k
    → get_bytes k (received (put_bytes k v ++ rest) junk) ≡ v
get-put_bytes zero v rest junk lt = omega (arith, lt, pow-zero 256)
get-put_bytes (suc k) v rest junk lt =
    omega
      (arith, get-put_bytes k (v / 256) rest (λ j. junk (suc j)) (omega (arith, lt, pow-suc 256 k)))

received-same :
    (xs : List ℕ) (f g : ℕ → ℕ) (i : ℕ) → ((j : ℕ) → f j ≡ g j) → received xs f i ≡ received xs g i
received-same [] f g i e = e i
received-same (x ∷ xs) f g zero e = refl
received-same (x ∷ xs) f g (suc i) e =
    received-same xs (λ j. f (suc j)) (λ j. g (suc j)) i (λ j. e (suc j))

received-append :
    (xs ys : List ℕ) (f g : ℕ → ℕ) (i : ℕ)
    → ((j : ℕ) → f (length xs + j) ≡ g j)
    → received (xs ++ ys) f (length xs + i) ≡ received ys g i
received-append [] ys f g i e =
    ap (received ys f) (zero_add i) ∙ received-same ys f g i (λ j. ap f (sym (zero_add j)) ∙ e j)
received-append (x ∷ xs) ys f g i e =
    ap (received (x ∷ (xs ++ ys)) f) (suc_add (length xs) i)
    ∙ received-append xs ys (λ j. f (suc j)) g i (λ j. ap f (sym (suc_add (length xs) j)) ∙ e j)

pub from-received :
    (n : ℕ) (xs ys : List ℕ) (f : ℕ → ℕ)
    → length xs ≡ n
    → from n (received (xs ++ ys) f) ≡ received ys (from n f)
from-received n xs ys f e = λ k i.
    (subst (λ q. received (xs ++ ys) f (q + i) ≡ received ys (from q f) i) e
        (received-append xs ys f (from (length xs) f) i (λ j. refl)))
      k

-- A table's words.
pub record IsMeta (t : HashMeta) : Type 0 where
  pub table_id_lt : t.table_id < 2 ^ 64
  pub data_ptr_lt : t.data_ptr < 2 ^ 64
  pub base_off_lt : t.base_off < 2 ^ 64
  pub bucket_num_lt : t.bucket_num < 2 ^ 64
  pub node_size_lt : t.node_size < 2 ^ 64

word : (v : ℕ) → v < 2 ^ 64 → get_bytes 8 (received (put_bytes 8 v) (λ _. 0)) ≡ v
word v lt = omega arith

-- The bytes of a table whose members are below 2^64 read back as the table, whatever follows them.
pub get_meta-bytes :
    (t : HashMeta) (rest : List ℕ) (f : ℕ → ℕ)
    → IsMeta t
    → get_meta (received (meta_bytes t ++ rest) f) ≡ t
unfolding get_meta meta_bytes
get_meta-bytes t rest f w = λ i. record {
  table_id = word t.table_id w.table_id_lt i;
  data_ptr = word t.data_ptr w.data_ptr_lt i;
  base_off = word t.base_off w.base_off_lt i;
  bucket_num = word t.bucket_num w.bucket_num_lt i;
  node_size = word t.node_size w.node_size_lt i;
}

pub length-all_meta_bytes :
    (ts : List HashMeta) → length (all_meta_bytes ts) ≡ hash_meta_size * length ts
unfolding meta_bytes
length-all_meta_bytes [] = refl
length-all_meta_bytes (t ∷ ts) = omega (arith, length-all_meta_bytes ts)

pub from-meta :
    (t : HashMeta) (rest : List ℕ) (f : ℕ → ℕ)
    → from hash_meta_size (received (meta_bytes t ++ rest) f)
      ≡ received rest (from hash_meta_size f)
unfolding meta_bytes
from-meta t rest f = from-received hash_meta_size (meta_bytes t) rest f refl

pub from-all_meta :
    (ts : List HashMeta) (rest : List ℕ) (f : ℕ → ℕ)
    → from (hash_meta_size * length ts) (received (all_meta_bytes ts ++ rest) f)
      ≡ received rest (from (hash_meta_size * length ts) f)
from-all_meta ts rest f =
    from-received (hash_meta_size * length ts) (all_meta_bytes ts) rest f (length-all_meta_bytes ts)
