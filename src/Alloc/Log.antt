-- ===== src/Alloc/Log.antt =====
-- The remote log: a thread's entries stay in its part of the buffer, on every memory node, and the
-- parts of two threads are apart.
use native.Mathlib.Nat.{mul-le-mul_right, div-add-mod}
use disaggregate_metadata_se.Base.{
  ℕ, zero, suc, ◌+◌, ◌*◌, ◌/◌, ◌<◌, ◌≤◌, ◌≡◌, refl, inl, inr, ltb, ltb→le, Bool-cases, update, ◌==◌,
  arith,
}
use disaggregate_metadata_se.Alloc.{
  LogOffsetAllocator, new_log_allocator, log_loop, get_next_log_offset, log_buffer_size,
  num_memory_nodes,
}

-- The part of thread `tid` among `num_thread`.
abbrev pub part : ℕ → ℕ → ℕ
part num_thread tid = tid * (log_buffer_size / num_thread)

-- Each memory node's entries of the thread so far are within its part.
pub record IsLog (num_thread tid : ℕ) (a : LogOffsetAllocator) : Type 0 where
  pub starts : (i : ℕ) → i < num_memory_nodes → a.start_log_offsets i ≡ part num_thread tid
  pub ends : (i : ℕ) → i < num_memory_nodes → a.end_log_offsets i ≡ part num_thread (tid + 1)
  pub used :
      (i : ℕ)
      → i < num_memory_nodes
      → part num_thread tid + a.current_log_offsets i ≤ part num_thread (tid + 1)

filled : (f : ℕ → ℕ) (v i : ℕ) → i < 3 → update (update (update f 0 v) 1 v) 2 v i ≡ v
filled f v zero lt = refl
filled f v (suc zero) lt = refl
filled f v (suc (suc zero)) lt = refl
filled f v (suc (suc (suc i))) lt = absurd (omega arith)

-- The parts are in the buffer, in the order of the threads.
pub part-le : (n t u : ℕ) → t ≤ u → part n t ≤ part n u
part-le n t u le = mul-le-mul_right (log_buffer_size / n) le

pub part-in : (n t : ℕ) → t < n → part n (t + 1) ≤ log_buffer_size
part-in n t lt =
    let most : (t + 1) * (log_buffer_size / n) ≤ n * (log_buffer_size / n) =
      mul-le-mul_right (log_buffer_size / n) (omega arith) in
    let whole = div-add-mod log_buffer_size n in omega (arith, most, whole)

pub new-IsLog :
    (garbage : LogOffsetAllocator) (num_thread tid : ℕ)
    → IsLog num_thread tid (new_log_allocator garbage tid num_thread)
unfolding new_log_allocator log_loop
new-IsLog garbage num_thread tid = record {
  starts = λ i lt. filled garbage.start_log_offsets (part num_thread tid) i lt;
  ends = λ i lt. filled garbage.end_log_offsets (part num_thread (tid + 1)) i lt;
  used = λ i lt. omega (
    arith,
    filled garbage.current_log_offsets 0 i lt,
    part-le num_thread tid (tid + 1) (omega arith),
  );
}

-- An entry that a part can hold lies in the thread's part of the buffer.
pub record Logged (num_thread tid size : ℕ) (r : ℕ × LogOffsetAllocator) : Type 0 where
  pub from : part num_thread tid ≤ r.0
  pub to : r.0 + size ≤ part num_thread (tid + 1)
  pub log : IsLog num_thread tid r.1

module _ (num_thread tid node size : ℕ) (a : LogOffsetAllocator) (l : IsLog num_thread tid a)
    (known : node < num_memory_nodes)
    (fits : part num_thread tid + size ≤ part num_thread (tid + 1)) where
  -- The cursor of the node is at `current`, and the entry goes there.
  entry-Logged :
      (current : ℕ)
      → part num_thread tid + current + size ≤ part num_thread (tid + 1)
      → Logged num_thread tid size (
        a.start_log_offsets node + current,
        record a { current_log_offsets = update a.current_log_offsets node (current + size) },
      )
  entry-Logged current room = record {
    from = omega (arith, l.starts node known);
    to = omega (arith, l.starts node known);
    log = record {
      starts = l.starts;
      ends = l.ends;
      used = λ i lt. elim (Bool-cases (i == node)) [
        | inl e ↦ rw e (omega arith)
        | inr e ↦ rw e (l.used i lt)
      ];
    };
  }

  pub get_next-Logged : Logged num_thread tid size (get_next_log_offset a node size)
  unfolding get_next_log_offset
  get_next-Logged =
      elim (Bool-cases (
        ltb (a.end_log_offsets node)
          (a.start_log_offsets node + a.current_log_offsets node + size))) [
            | inl t ↦ rw t (entry-Logged 0 (omega arith))
            | inr t ↦
                let room = ltb→le _ _ t in
                rw t (
                  entry-Logged (a.current_log_offsets node)
                    (omega (arith, l.starts node known, l.ends node known)))
          ]

-- The entries of an earlier and a later thread, on whatever nodes, are apart and within the buffer.
module _ (n t u node_t node_u x y : ℕ) (before : t < u) (last : u < n) (a b : LogOffsetAllocator)
    (l_t : IsLog n t a) (l_u : IsLog n u b) (known_t : node_t < num_memory_nodes)
    (known_u : node_u < num_memory_nodes) (fits_t : part n t + x ≤ part n (t + 1))
    (fits_u : part n u + y ≤ part n (u + 1)) where
  -- Of two threads of `n`, each with its cursors in its part of the log, entries no larger than a
  -- part, on any nodes: the earlier thread's entry ends before the later one's starts, and that one
  -- is within the log buffer.
  pub entries_apart :
      ((get_next_log_offset a node_t x).0 + x ≤ (get_next_log_offset b node_u y).0)
      × ((get_next_log_offset b node_u y).0 + y ≤ log_buffer_size)
  entries_apart =
      let got_t = get_next-Logged n t node_t x a l_t known_t fits_t in
      let got_u = get_next-Logged n u node_u y b l_u known_u fits_u in
      (
        omega (arith, got_t.to, got_u.from, part-le n (t + 1) u (omega arith)),
        omega (arith, got_u.to, part-in n u last),
      )
