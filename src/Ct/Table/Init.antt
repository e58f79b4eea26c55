-- ===== src/Ct/Table/Init.antt =====
-- InitializeBucket and GetBucketHeadByHash: they end with the bucket's head in the list.
use native.Mathlib.Nat.{mod-lt, one-le-pow, pow-le-pow_right}
use disaggregate_metadata_se.Base.{
  ℕ, zero, suc, ◌%◌, ◌^◌, ◌<◌, ◌≤◌, ◌≡◌, refl, sym, ◌∙◌, ap, inl, inr, Bool, List, ◌==◌,
  if◌then◌else◌, ==_iff, Bool-cases, arith,
}
use disaggregate_metadata_se.Base.Run.{Returns, ok, Run, ◌>>=◌}
use disaggregate_metadata_se.Ct.{
  Ct, Directory, get_bucket_parent, get_bucket_head_by_index, with_bucket, bucket_size,
  k_max_bucket_size,
}
use disaggregate_metadata_se.Ct.Reverse.Order.{parent-lt}
use disaggregate_metadata_se.Ct.Rank.{}
use disaggregate_metadata_se.Ct.Directory.{head-with_bucket}
use disaggregate_metadata_se.Ct.State.{IsTable}
use disaggregate_metadata_se.Ct.Table.{Head, initialize_bucket, get_bucket_head_by_hash, make_head}
use disaggregate_metadata_se.Ct.Table.Heads.{Made, make_head-Made, there-Made}

same_branches : (c : Bool) (v : ℕ) → (if c then v else v) ≡ v
same_branches c v = ground arith

-- The path to a bucket may be allocated.
path-IsTable :
    (ct : Ct) (ps : List ℕ) (b : ℕ)
    → IsTable ct ps
    → b < k_max_bucket_size
    → IsTable (record ct { segments = with_bucket ct.segments b (λ q. q) }) ps
path-IsTable ct ps b t lt =
    let same = λ (a : ℕ) (small : a < k_max_bucket_size).
      let at = head-with_bucket ct.segments a b (λ q. q) small lt in at ∙ same_branches _ _ in
    record {
      list = record { linked = t.list.linked; short = t.list.short; values = t.list.values };
      power = t.power;
      counted = t.counted;
      load = t.load;
      root = rw (same 0 (omega arith)) t.root;
      heads = λ a small. rw (same a small) (t.heads a small);
    }

Made-trans :
    (ct : Ct) (ps : List ℕ) (a b : ℕ) (r s : Head) (segments : Directory) (m : Made ct ps a r)
    → Made (record r.ct { segments = segments }) m.nodes b s
    → Made ct ps b s
Made-trans ct ps a b r s segments m n = record {
  nodes = n.nodes;
  table = n.table;
  head = n.head;
  kept = λ hash key fits. n.kept hash key fits ∙ m.kept hash key fits;
  power = n.power ∙ m.power;
  size = n.size ∙ m.size;
  more = omega (arith, n.more, m.more);
  room = omega (arith, n.room, m.room);
  outside = λ q below out.
      let (out', same) = m.outside q below out in
      let (out'', same') = n.outside q (omega (arith, below, m.more)) out' in (out'', same' ∙ same);
}

-- The head of a bucket, made if there is none
abbrev head_or_made : ℕ → Ct → ℕ → Run Head
head_or_made fuel ct b =
    let head = get_bucket_head_by_index ct.segments b in
    if head == 0 then initialize_bucket fuel ct b else ok (record { head = head; ct = ct })

initialize_bucket-step :
    (fuel : ℕ) (ct : Ct) (b : ℕ)
    → initialize_bucket (suc fuel) ct b ≡ (
        head_or_made fuel ct (get_bucket_parent b) >>= λ r.
        make_head (record r.ct { segments = with_bucket r.ct.segments b (λ q. q) }) b r.head)
unfolding initialize_bucket
initialize_bucket-step fuel ct b = refl

parent_le : (b : ℕ) → get_bucket_parent b ≤ b
unfolding get_bucket_parent
parent_le b = omega arith

head_or_made-Made :
    (fuel : ℕ) (ct : Ct) (ps : List ℕ) (b : ℕ)
    → IsTable ct ps
    → b < k_max_bucket_size
    → (0 < b → Returns (initialize_bucket fuel ct b) (Made ct ps b))
    → Returns (head_or_made fuel ct b) (Made ct ps b)
head_or_made-Made fuel ct ps b t max make =
    let head = get_bucket_head_by_index ct.segments b in
    elim (Bool-cases (head == 0)) [
      | inl e ↦ elim (Bool-cases (b == 0)) [
        | inl z ↦
            let zero_bucket : b ≡ 0 = (==_iff b 0).0 z in
            let none = (==_iff head 0).0 e in
            absurd (t.root (ap (get_bucket_head_by_index ct.segments) (sym zero_bucket) ∙ none))
        | inr z ↦ rw e (make (ground (arith, z)))
      ]
      | inr e ↦ (
        record { head = head; ct = ct },
        rw e refl,
        there-Made ct ps b t max head
            (elim (t.heads b max) [ inl z ↦ absurd (ground (arith, e, z)) | inr h ↦ h ]),
      )
    ]

-- `b` loses a bit in each round, so 65 rounds are enough.
initialize_bucket-Made :
    (n : ℕ) (ct : Ct) (ps : List ℕ) (b : ℕ)
    → n ≤ 64
    → IsTable ct ps
    → 0 < b
    → b < 2 ^ n
    → b < k_max_bucket_size
    → Returns (initialize_bucket (suc n) ct b) (Made ct ps b)
initialize_bucket-Made zero ct ps b small t pos lt max = absurd (omega arith)
initialize_bucket-Made (suc n) ct ps b small t pos lt max =
    let parent = get_bucket_parent b in
    let (below, before) = parent-lt n b (omega arith) pos lt in
    let lower : parent < k_max_bucket_size = omega (arith, parent_le b, max) in
    let (r, run, m) =
      head_or_made-Made (suc n) ct ps parent t lower
        λ some_bit. initialize_bucket-Made n ct ps parent (omega arith) t some_bit below lower in
    let (s, run', m') =
      make_head-Made (record r.ct { segments = with_bucket r.ct.segments b (λ q. q) }) m.nodes b
        (path-IsTable r.ct m.nodes b m.table max) max r.head m.head.0
        (omega (arith, m.head.1, before)) in
    (s, rw (initialize_bucket-step, run) run', Made-trans ct ps parent b r s _ m m')

-- The head of a hash's bucket is found or made.
pub get_bucket_head_by_hash-Made :
    (ct : Ct) (ps : List ℕ) (hash : ℕ)
    → IsTable ct ps
    → Returns (get_bucket_head_by_hash ct hash) (Made ct ps (hash % 2 ^ ct.power_of_2))
unfolding get_bucket_head_by_hash bucket_size
get_bucket_head_by_hash-Made ct ps hash t =
    let b = hash % 2 ^ ct.power_of_2 in
    let fits : 2 ^ ct.power_of_2 ≤ 2 ^ 24 = pow-le-pow_right (omega arith) t.power in
    let pos : 0 < 2 ^ ct.power_of_2 = one-le-pow ct.power_of_2 2 (omega arith) in
    let lt : b < 2 ^ 24 = omega (arith, mod-lt hash pos, fits) in
    head_or_made-Made 65 ct ps b t (omega (arith, lt)) λ some_bit.
      initialize_bucket-Made 64 ct ps b (omega arith) t some_bit (omega (arith, lt))
        (omega (arith, lt))
