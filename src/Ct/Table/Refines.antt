-- ===== src/Ct/Table/Refines.antt =====
-- The table as a map: what any sequence of operations answers.
use disaggregate_metadata_se.Base.{
  ℕ, ◌+◌, ◌^◌, ◌<◌, ◌≤◌, ◌≡◌, length, ◌≢◌, refl, sym, ◌∙◌, ap, inl, inr, Bool, true, false, not,
  Option, none, some, List, [], ◌∷◌, ◌==◌, if◌then◌else◌, update, ==_iff, Bool-cases, arith,
}
use disaggregate_metadata_se.Base.Run.{Run, ok, ◌>>=◌}
use disaggregate_metadata_se.Ct.{Ct, new_ct}
use disaggregate_metadata_se.Ct.State.{IsTable, view, is_none}
use disaggregate_metadata_se.Ct.Table.{insert, delete, find}
use disaggregate_metadata_se.Ct.Table.Insert.{insert-Inserts}
use disaggregate_metadata_se.Ct.Table.Delete.{delete-Deletes, state_after, was_there}
use disaggregate_metadata_se.Ct.Table.Find.{find-Finds, new_ct-IsTable}

pub data Op : Type 0 where
  put : ℕ → ℕ → Op
  remove : ℕ → Op
  ask : ℕ → Op

pub data Answer : Type 0 where
  was_new : Bool → Answer
  was_present : Bool → Answer
  holds : Option ℕ → Answer

abbrev pub answers : Answer → Run (List Answer) → Run (List Answer)
answers a run = run >>= λ rest. ok (a ∷ rest)

-- The answers of the table
abbrev pub table_answers : (ℕ → ℕ) → Ct → List Op → Run (List Answer)
table_answers hash_func ct [] = ok []
table_answers hash_func ct (put key value ∷ ops) = insert hash_func ct key value >>= λ r.
    answers (was_new r.inserted) (table_answers hash_func r.ct ops)
table_answers hash_func ct (remove key ∷ ops) = delete hash_func ct key >>= λ r.
    answers (was_present (was_there r)) (table_answers hash_func (state_after r) ops)
table_answers hash_func ct (ask key ∷ ops) =
    find hash_func ct key >>= λ r. answers (holds r.value) (table_answers hash_func r.ct ops)

-- The answers of a map from keys to values
abbrev pub map_answers : (ℕ → Option ℕ) → List Op → List Answer
map_answers f [] = []
map_answers f (put key value ∷ ops) =
    was_new (is_none (f key)) ∷ map_answers (update f key (some value)) ops
map_answers f (remove key ∷ ops) =
    was_present (not (is_none (f key))) ∷ map_answers (update f key none) ops
map_answers f (ask key ∷ ops) = holds (f key) ∷ map_answers f ops

abbrev key_of : Op → ℕ
key_of (put key value) = key
key_of (remove key) = key
key_of (ask key) = key

-- The keys are 64-bit words.
abbrev pub Fit : List Op → Type 0
Fit [] = Unit
Fit (op ∷ ops) = (key_of op < 2 ^ 64) × Fit ops

-- The table has what the map has.
abbrev Agrees : (ℕ → ℕ) → Ct → List ℕ → (ℕ → Option ℕ) → Type 0
Agrees hash_func ct ps f = (k : ℕ) → k < 2 ^ 64 → view hash_func ct ps k ≡ f k

twice : (b : Bool) → not (not b) ≡ b
twice true = refl
twice false = refl

Agrees-update :
    (hash_func : ℕ → ℕ) (ct ct' : Ct) (ps nodes : List ℕ) (f : ℕ → Option ℕ) (key : ℕ)
    (v : Option ℕ)
    → Agrees hash_func ct ps f
    → view hash_func ct' nodes key ≡ v
    → ((k : ℕ) → k < 2 ^ 64 → k ≢ key → view hash_func ct' nodes k ≡ view hash_func ct ps k)
    → Agrees hash_func ct' nodes (update f key v)
Agrees-update hash_func ct ct' ps nodes f key v agrees at others k fits =
    elim (Bool-cases (k == key)) [
      | inl e ↦ let here : k ≡ key = (==_iff k key).0 e in rw e (rw here at)
      | inr e ↦ rw e (others k fits (λ z. absurd (ground (arith, e, z))) ∙ agrees k fits)
    ]

grown : (b : Bool) (n m : ℕ) → m ≡ (if b then n + 1 else n) → (m ≤ n + 1) × (n ≤ m)
grown true n m e = omega arith
grown false n m e = omega arith

table-refines :
    (hash_func : ℕ → ℕ) (ops : List Op) (ct : Ct) (ps : List ℕ) (f : ℕ → Option ℕ)
    → IsTable ct ps
    → Agrees hash_func ct ps f
    → Fit ops
    → ct.size + length ops ≤ 2 ^ 23
    → table_answers hash_func ct ops ≡ ok (map_answers f ops)
table-refines hash_func [] ct ps f t agrees fit room = refl
table-refines hash_func (put key value ∷ ops) ct ps f t agrees fit room =
    elim (insert-Inserts hash_func ct ps key value fit.0 t) [
      | inr (e, full) ↦ absurd (omega (arith, full, room))
      | inl (r, e, s) ↦
          let told : is_none (f key) ≡ r.inserted =
            ap is_none (sym (agrees key fit.0)) ∙ sym s.told in
          let rest =
            table-refines hash_func ops r.ct s.nodes (update f key (some value)) s.table
              (Agrees-update hash_func ct r.ct ps s.nodes f key (some value) agrees s.at_key
                s.others)
              fit.1 (omega (arith, room, grown r.inserted ct.size r.ct.size s.size)) in
          rw (e, told, rest) refl
    ]
table-refines hash_func (remove key ∷ ops) ct ps f t agrees fit room =
    let (r, e, s) = delete-Deletes hash_func ct ps key fit.0 t in
    let told : not (is_none (f key)) ≡ was_there r =
      ap (λ o. not (is_none o)) (sym (agrees key fit.0))
      ∙ ap not (sym s.told)
      ∙ twice (was_there r) in
    let rest =
      table-refines hash_func ops (state_after r) s.nodes (update f key none) s.table
        (Agrees-update hash_func ct (state_after r) ps s.nodes f key none agrees s.at_key s.others)
        fit.1 (omega (arith, room, grown (was_there r) (state_after r).size ct.size s.size)) in
    rw (e, told, rest) refl
table-refines hash_func (ask key ∷ ops) ct ps f t agrees fit room =
    let (r, e, s) = find-Finds hash_func ct ps key fit.0 t in
    let told : f key ≡ r.value = sym (agrees key fit.0) ∙ sym s.value in
    let rest =
      table-refines hash_func ops r.ct s.nodes f s.table (λ k fits. s.kept k fits ∙ agrees k fits)
        fit.1 (omega (arith, room, s.size)) in
    rw (e, told, rest) refl

-- Whatever the hash function: a sequence of at most 2^23 insertions, deletions and searches with
-- 64-bit keys, made of a new table, returns, and its answers are those of a map from keys to values
-- that is empty at first.
pub ct-refines :
    (hash_func : ℕ → ℕ) (ops : List Op)
    → Fit ops
    → length ops ≤ 2 ^ 23
    → table_answers hash_func new_ct ops ≡ ok (map_answers (λ k. none) ops)
ct-refines hash_func ops fit room =
    table-refines hash_func ops new_ct (1 ∷ []) (λ k. none) new_ct-IsTable.0
      (new_ct-IsTable.2 hash_func) fit (omega (arith, room, new_ct-IsTable.1))
