-- ===== src/Latency.antt =====
-- core/util/latency.h: the histogram of latencies, five bins of 128 counters and one for the rest.
mod Tests
use disaggregate_metadata_se.Base.{
  ℕ, zero, suc, ◌+◌, ◌-◌, ◌/◌, ◌<◌, ◌≡◌, ◌≢◌, ◌⊎◌, refl, sym, ap, ◌∙◌, inl, inr, true, false, List,
  [], ◌∷◌, ltb, ltb→lt, ltb→le, if◌then◌else◌, length, modify, length-modify, replicate,
  length-replicate, Bool-cases, add64, arith,
}

pub record Latency : Type 0 where
  pub bin0 : List ℕ
  pub bin1 : List ℕ
  pub bin2 : List ℕ
  pub bin3 : List ℕ
  pub bin4 : List ℕ
  pub bin5 : ℕ

abbrev pub bin_size : ℕ
bin_size = 128

unfoldable pub reset : Latency
reset = record {
  bin0 = replicate bin_size 0;
  bin1 = replicate bin_size 0;
  bin2 = replicate bin_size 0;
  bin3 = replicate bin_size 0;
  bin4 = replicate bin_size 0;
  bin5 = 0;
}

-- `bin[i]++`
abbrev increment : List ℕ → ℕ → List ℕ
increment bin i = modify bin i (λ x. add64 x 1)

unfoldable pub update_us : Latency → ℕ → Latency
update_us l us =
    if ltb us 128
    then record l { bin0 = increment l.bin0 us }
    else if ltb us 384
    then record l { bin1 = increment l.bin1 ((us - 128) / 2) }
    else if ltb us 896
    then record l { bin2 = increment l.bin2 ((us - 384) / 4) }
    else if ltb us 1920
    then record l { bin3 = increment l.bin3 ((us - 896) / 8) }
    else if ltb us 3968
    then record l { bin4 = increment l.bin4 ((us - 1920) / 16) }
    else record l { bin5 = add64 l.bin5 1 }

-- The `for` of a sum over two bins, and of the count over one.
unfoldable pub add_bins : List ℕ → List ℕ → List ℕ
add_bins [] ys = []
add_bins (x ∷ xs) [] = x ∷ xs
add_bins (x ∷ xs) (y ∷ ys) = add64 x y ∷ add_bins xs ys

unfoldable pub add_latency : Latency → Latency → Latency
add_latency l o = record {
  bin0 = add_bins l.bin0 o.bin0;
  bin1 = add_bins l.bin1 o.bin1;
  bin2 = add_bins l.bin2 o.bin2;
  bin3 = add_bins l.bin3 o.bin3;
  bin4 = add_bins l.bin4 o.bin4;
  bin5 = add64 l.bin5 o.bin5;
}

unfoldable pub count_bin : ℕ → List ℕ → ℕ
count_bin count [] = count
count_bin count (x ∷ xs) = count_bin (add64 count x) xs

unfoldable pub count : Latency → ℕ
count l =
    add64
      (count_bin (count_bin (count_bin (count_bin (count_bin 0 l.bin0) l.bin1) l.bin2) l.bin3)
        l.bin4)
      l.bin5

-- Every bin has its 128 counters.
pub record IsLatency (l : Latency) : Type 0 where
  pub size0 : length l.bin0 ≡ bin_size
  pub size1 : length l.bin1 ≡ bin_size
  pub size2 : length l.bin2 ≡ bin_size
  pub size3 : length l.bin3 ≡ bin_size
  pub size4 : length l.bin4 ≡ bin_size

pub reset-IsLatency : IsLatency reset
unfolding reset
reset-IsLatency = record { size0 = refl; size1 = refl; size2 = refl; size3 = refl; size4 = refl }

increment-size :
    (bin : List ℕ) (i : ℕ) → length bin ≡ bin_size → length (increment bin i) ≡ bin_size
increment-size bin i e = length-modify bin i (λ x. add64 x 1) ∙ e

pub update_us-IsLatency : (l : Latency) (us : ℕ) → IsLatency l → IsLatency (update_us l us)
unfolding update_us
update_us-IsLatency l us k = elim (Bool-cases (ltb us 128)) [
  | inl e ↦ rw e (record {
    size0 = increment-size l.bin0 us k.size0;
    size1 = k.size1;
    size2 = k.size2;
    size3 = k.size3;
    size4 = k.size4;
  })
  | inr e0 ↦ elim (Bool-cases (ltb us 384)) [
    | inl e ↦
        rw (e0, e)
          (record {
            size0 = k.size0;
            size1 = increment-size l.bin1 ((us - 128) / 2) k.size1;
            size2 = k.size2;
            size3 = k.size3;
            size4 = k.size4;
          })
    | inr e1 ↦ elim (Bool-cases (ltb us 896)) [
      | inl e ↦
          rw (e0, e1, e)
            (record {
              size0 = k.size0;
              size1 = k.size1;
              size2 = increment-size l.bin2 ((us - 384) / 4) k.size2;
              size3 = k.size3;
              size4 = k.size4;
            })
      | inr e2 ↦ elim (Bool-cases (ltb us 1920)) [
        | inl e ↦
            rw (e0, e1, e2, e)
              (record {
                size0 = k.size0;
                size1 = k.size1;
                size2 = k.size2;
                size3 = increment-size l.bin3 ((us - 896) / 8) k.size3;
                size4 = k.size4;
              })
        | inr e3 ↦ elim (Bool-cases (ltb us 3968)) [
          | inl e ↦
              rw (e0, e1, e2, e3, e)
                (record {
                  size0 = k.size0;
                  size1 = k.size1;
                  size2 = k.size2;
                  size3 = k.size3;
                  size4 = increment-size l.bin4 ((us - 1920) / 16) k.size4;
                })
          | inr e4 ↦
              rw (e0, e1, e2, e3, e4)
                (record {
                  size0 = k.size0;
                  size1 = k.size1;
                  size2 = k.size2;
                  size3 = k.size3;
                  size4 = k.size4;
                })
        ]
      ]
    ]
  ]
]

-- A count from a start that is `b` higher, of a bin with a counter that is 1 higher, and of two bins.
count_bin-start : (xs : List ℕ) (a b : ℕ) → count_bin (add64 a b) xs ≡ add64 (count_bin a xs) b
unfolding count_bin
count_bin-start [] a b = refl
count_bin-start (x ∷ xs) a b =
    ap (λ c. count_bin c xs) (swap a b x) ∙ count_bin-start xs (add64 a x) b
  where
    swap : (a b x : ℕ) → add64 (add64 a b) x ≡ add64 (add64 a x) b
    swap a b x = omega arith

count_bin-increment :
    (xs : List ℕ) (a i : ℕ)
    → i < length xs
    → count_bin a (increment xs i) ≡ add64 (count_bin a xs) 1
unfolding count_bin
count_bin-increment [] a i lt = absurd (omega arith)
count_bin-increment (x ∷ xs) a zero lt =
    ap (λ c. count_bin c xs) (regroup a x) ∙ count_bin-start xs (add64 a x) 1
  where
    regroup : (a x : ℕ) → add64 a (add64 x 1) ≡ add64 (add64 a x) 1
    regroup a x = omega arith
count_bin-increment (x ∷ xs) a (suc i) lt = count_bin-increment xs (add64 a x) i (omega arith)

count_bin-add_bins :
    (xs ys : List ℕ) (a b : ℕ)
    → length xs ≡ length ys
    → count_bin (add64 a b) (add_bins xs ys) ≡ add64 (count_bin a xs) (count_bin b ys)
unfolding count_bin add_bins
count_bin-add_bins [] [] a b e = refl
count_bin-add_bins [] (y ∷ ys) a b e = absurd (omega (arith, e))
count_bin-add_bins (x ∷ xs) [] a b e = absurd (omega (arith, e))
count_bin-add_bins (x ∷ xs) (y ∷ ys) a b e =
    ap (λ c. count_bin c (add_bins xs ys)) (regroup a b x y)
    ∙ count_bin-add_bins xs ys (add64 a x) (add64 b y) (omega (arith, e))
  where
    regroup : (a b x y : ℕ) → add64 (add64 a b) (add64 x y) ≡ add64 (add64 a x) (add64 b y)
    regroup a b x y = omega arith

-- What the count makes of a start, from each bin on.
module _ (l : Latency) where
  abbrev from5 : ℕ → ℕ
  from5 a = add64 a l.bin5

  abbrev from4 : ℕ → ℕ
  from4 a = from5 (count_bin a l.bin4)

  abbrev from3 : ℕ → ℕ
  from3 a = from4 (count_bin a l.bin3)

  abbrev from2 : ℕ → ℕ
  from2 a = from3 (count_bin a l.bin2)

  abbrev from1 : ℕ → ℕ
  from1 a = from2 (count_bin a l.bin1)

  -- The counts before each bin.
  abbrev to1 : ℕ
  to1 = count_bin 0 l.bin0

  abbrev to2 : ℕ
  to2 = count_bin to1 l.bin1

  abbrev to3 : ℕ
  to3 = count_bin to2 l.bin2

  abbrev to4 : ℕ
  to4 = count_bin to3 l.bin3

  abbrev to5 : ℕ
  to5 = count_bin to4 l.bin4

  from5-start : (a : ℕ) → from5 (add64 a 1) ≡ add64 (from5 a) 1
  from5-start a = omega arith

  from4-start : (a : ℕ) → from4 (add64 a 1) ≡ add64 (from4 a) 1
  from4-start a = ap from5 (count_bin-start l.bin4 a 1) ∙ from5-start (count_bin a l.bin4)

  from3-start : (a : ℕ) → from3 (add64 a 1) ≡ add64 (from3 a) 1
  from3-start a = ap from4 (count_bin-start l.bin3 a 1) ∙ from4-start (count_bin a l.bin3)

  from2-start : (a : ℕ) → from2 (add64 a 1) ≡ add64 (from2 a) 1
  from2-start a = ap from3 (count_bin-start l.bin2 a 1) ∙ from3-start (count_bin a l.bin2)

  from1-start : (a : ℕ) → from1 (add64 a 1) ≡ add64 (from1 a) 1
  from1-start a = ap from2 (count_bin-start l.bin1 a 1) ∙ from2-start (count_bin a l.bin1)

  module _ (k : IsLatency l) (i : ℕ) (lt : i < bin_size) where
    count-bin0 : count (record l { bin0 = increment l.bin0 i }) ≡ add64 (count l) 1
    unfolding count
    count-bin0 =
        ap from1 (count_bin-increment l.bin0 0 i (omega (arith, k.size0))) ∙ from1-start to1

    count-bin1 : count (record l { bin1 = increment l.bin1 i }) ≡ add64 (count l) 1
    unfolding count
    count-bin1 =
        ap from2 (count_bin-increment l.bin1 to1 i (omega (arith, k.size1))) ∙ from2-start to2

    count-bin2 : count (record l { bin2 = increment l.bin2 i }) ≡ add64 (count l) 1
    unfolding count
    count-bin2 =
        ap from3 (count_bin-increment l.bin2 to2 i (omega (arith, k.size2))) ∙ from3-start to3

    count-bin3 : count (record l { bin3 = increment l.bin3 i }) ≡ add64 (count l) 1
    unfolding count
    count-bin3 =
        ap from4 (count_bin-increment l.bin3 to3 i (omega (arith, k.size3))) ∙ from4-start to4

    count-bin4 : count (record l { bin4 = increment l.bin4 i }) ≡ add64 (count l) 1
    unfolding count
    count-bin4 =
        ap from5 (count_bin-increment l.bin4 to4 i (omega (arith, k.size4)))
        ∙ from5-start (count_bin to4 l.bin4)

last_count : (a b : ℕ) → add64 a (add64 b 1) ≡ add64 (add64 a b) 1
last_count a b = omega arith

-- An update of a histogram whose bins have their 128 counters counts one more, modulo 2^64.
pub update_us-count :
    (l : Latency) (us : ℕ) → IsLatency l → count (update_us l us) ≡ add64 (count l) 1
unfolding update_us count
update_us-count l us k = elim (Bool-cases (ltb us 128)) [
  | inl e ↦ rw e (count-bin0 l k us (ltb→lt us 128 e))
  | inr e0 ↦ elim (Bool-cases (ltb us 384)) [
    | inl e ↦ rw (e0, e) (count-bin1 l k ((us - 128) / 2) (omega (arith, ltb→lt us 384 e)))
    | inr e1 ↦ elim (Bool-cases (ltb us 896)) [
      | inl e ↦ rw (e0, e1, e) (count-bin2 l k ((us - 384) / 4) (omega (arith, ltb→lt us 896 e)))
      | inr e2 ↦ elim (Bool-cases (ltb us 1920)) [
        | inl e ↦
            rw (e0, e1, e2, e) (count-bin3 l k ((us - 896) / 8) (omega (arith, ltb→lt us 1920 e)))
        | inr e3 ↦ elim (Bool-cases (ltb us 3968)) [
          | inl e ↦
              rw (e0, e1, e2, e3, e)
                (count-bin4 l k ((us - 1920) / 16) (omega (arith, ltb→lt us 3968 e)))
          | inr e4 ↦
              rw (e0, e1, e2, e3, e4)
                (last_count
                  (count_bin
                    (count_bin (count_bin (count_bin (count_bin 0 l.bin0) l.bin1) l.bin2) l.bin3)
                    l.bin4)
                  l.bin5)
        ]
      ]
    ]
  ]
]

last_sum : (a b x y : ℕ) → add64 (add64 a b) (add64 x y) ≡ add64 (add64 a x) (add64 b y)
last_sum a b x y = omega arith

-- The count of the sum of two histograms whose bins have their 128 counters is the sum of their
-- counts, modulo 2^64.
pub add_latency-count :
    (l o : Latency)
    → IsLatency l
    → IsLatency o
    → count (add_latency l o) ≡ add64 (count l) (count o)
unfolding add_latency count
add_latency-count l o k j =
    let t = add_latency l o in
    ap (from1 t) (count_bin-add_bins l.bin0 o.bin0 0 0 (k.size0 ∙ sym j.size0))
    ∙ ap (from2 t) (count_bin-add_bins l.bin1 o.bin1 (to1 l) (to1 o) (k.size1 ∙ sym j.size1))
    ∙ ap (from3 t) (count_bin-add_bins l.bin2 o.bin2 (to2 l) (to2 o) (k.size2 ∙ sym j.size2))
    ∙ ap (from4 t) (count_bin-add_bins l.bin3 o.bin3 (to3 l) (to3 o) (k.size3 ∙ sym j.size3))
    ∙ ap (from5 t) (count_bin-add_bins l.bin4 o.bin4 (to4 l) (to4 o) (k.size4 ∙ sym j.size4))
    ∙ last_sum (to5 l) (to5 o) l.bin5 o.bin5
