-- ===== src/Doorbell/Verbs.antt =====
-- What a network card makes of a posted request, by the opcode.
use disaggregate_metadata_se.Base.{
  ℕ, ◌+◌, ◌*◌, ◌/◌, ◌%◌, ◌≡◌, Bool, Option, none, some, List, [], ◌∷◌, if◌then◌else◌, arith,
}
use disaggregate_metadata_se.Doorbell.{Opcode, Request, DoorbellBatch, TripleBatch, u32_mod}

pub data Verb : Type 0 where
  cas : (remote rkey compare swap local lkey : ℕ) → Verb
  write : (remote rkey local bytes lkey : ℕ) → Verb
  read : (remote rkey local bytes lkey : ℕ) → Verb

-- With its data in the request itself or not, and the number that a completion carries, if it has one.
pub record Posted : Type 0 where
  pub verb : Verb
  pub inline : Bool
  pub completes : Option ℕ

abbrev pub verb_of : Request → Verb
verb_of r = elim r.opcode [
  | Opcode.atomic_cmp_and_swp ↦ cas r.remote_addr r.atomic_rkey r.compare_add r.swap r.addr r.lkey
  | Opcode.rdma_write ↦ write r.remote_addr (r.compare_add % u32_mod) r.addr r.sge_length r.lkey
  | Opcode.rdma_read ↦ read r.remote_addr (r.compare_add % u32_mod) r.addr r.sge_length r.lkey
]

abbrev pub posted_of : Request → Posted
posted_of r = record {
  verb = verb_of r;
  inline = r.inline;
  completes = if r.signaled then some r.wr_id else none;
}

abbrev pub pair_posted : DoorbellBatch → List Posted
pair_posted b = posted_of b.first ∷ posted_of b.second ∷ []

abbrev pub triple_posted : TripleBatch → List Posted
triple_posted b = posted_of b.first ∷ posted_of b.second ∷ posted_of b.third ∷ []

-- The half word reads back.
pub low_key : (w key : ℕ) → (w / u32_mod * u32_mod + key % u32_mod) % u32_mod ≡ key % u32_mod
low_key w key = omega arith
