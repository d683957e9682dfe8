-- ===== src/Ecs/Manager/Batch/Grow.antt =====
-- libs/lib_ecs/EntityManager.hpp: pools that grow and are filled where nothing is in use.
use project_e.Common.{
  ℕ, zero, suc, ◌+◌, ◌≤◌, ◌<◌, ◌≡◌, refl, ap, ◌∙◌, true, false, Option, some, List, [], ◌∷◌, arith,
  length, take, All, Bool-cases, inl, inr, length-append, ltb,
}
use project_e.Ecs.Pos.{Pos, eq_pos_refl}
use project_e.Ecs.Chunks.Access.{InGrid}
use project_e.Ecs.Archetypes.{ArchetypePool, read, get_chunk_count, chunk_positions, add_chunk}
use project_e.Ecs.Archetypes.Access.{free_pos-add_chunk, get_chunk_count-IsArchetype}
use project_e.Ecs.Archetypes.Widths.{IsArchetype, SameFrame}
use project_e.Ecs.Manager.Free.{mem_pos, Distinct}
use project_e.Ecs.Manager.Pools.{IsPool, Stable, add_chunk-Stable, chunk_positions-cons}
use project_e.Ecs.Manager.Batch.{grow}

pub Stable-refl : (ws : List ℕ) (pool : ArchetypePool) → IsPool ws pool → Stable ws pool pool
Stable-refl ws pool v = record {
  valid = v;
  kept = λ q u. u;
  only = λ q u. u;
  reads = λ j q u. refl;
}

pub Stable-trans :
    {ws : List ℕ} {a b c : ArchetypePool} → Stable ws a b → Stable ws b c → Stable ws a c
Stable-trans s t = record {
  valid = t.valid;
  kept = λ q u. t.kept q (s.kept q u);
  only = λ q u. s.only q (t.only q u);
  reads = λ j q u. t.reads j q (s.kept q u) ∙ s.reads j q u;
}

-- The loop that adds chunks has ended, with enough free positions.
pub record Roomy (ws : List ℕ) (count : ℕ) (pool : ArchetypePool) (outcome : Option ArchetypePool)
    : Type 0 where
  pub result : ArchetypePool
  pub returned : outcome ≡ some result
  pub stable : Stable ws pool result
  pub enough : count ≤ length result.free_pos

length-add_chunk :
    (ws : List ℕ) (pool : ArchetypePool)
    → IsPool ws pool
    → length pool.free_pos < length (add_chunk pool).free_pos
length-add_chunk ws pool v =
    let n = get_chunk_count pool in
    let (p, ps, first) = chunk_positions-cons n pool.chunk_size 0 v.roomy in
    let free = ap length (free_pos-add_chunk pool v.shape 0 (2 ∷ ws) refl) in
    omega (
      arith,
      free,
      length-append pool.free_pos (chunk_positions n pool.chunk_size 0),
      ap length first,
    )

pub grow_total :
    (ws : List ℕ) (fuel count : ℕ) (pool : ArchetypePool)
    → IsPool ws pool
    → count ≤ length pool.free_pos + fuel
    → Roomy ws count pool (grow fuel count pool)
unfolding grow
grow_total ws zero count pool v h =
    let done : ltb (length pool.free_pos) count ≡ false = ground arith in
    record {
      result = pool;
      returned = rw done;
      stable = Stable-refl ws pool v;
      enough = omega arith;
    }
grow_total ws (suc fuel) count pool v h = elim (Bool-cases (ltb (length pool.free_pos) count)) [
  | inl short ↦
      let s = add_chunk-Stable ws pool v in
      let r =
        grow_total ws fuel count (add_chunk pool) s.valid
          (omega (arith, h, length-add_chunk ws pool v)) in
      record {
        result = r.result;
        returned = rw short r.returned;
        stable = Stable-trans s r.stable;
        enough = r.enough;
      }
  | inr done ↦ record {
    result = pool;
    returned = rw done;
    stable = Stable-refl ws pool v;
    enough = ground arith;
  }
]

pub mem_pos-take :
    (n : ℕ) (ps : List Pos) (q : Pos) → mem_pos q (take n ps) ≡ true → mem_pos q ps ≡ true
mem_pos-take zero ps q h = absurd (ground arith)
mem_pos-take (suc n) [] q h = h
mem_pos-take (suc n) (p ∷ ps) q h = ground (arith, mem_pos-take n ps q)

pub take-Distinct : (n : ℕ) (ps : List Pos) → Distinct ps → Distinct (take n ps)
take-Distinct zero ps d = tt
take-Distinct (suc n) [] d = tt
take-Distinct (suc n) (p ∷ ps) d = (
  elim (Bool-cases (mem_pos p (take n ps))) [
    | inl bad ↦ ground (arith, mem_pos-take n ps p bad, d.0)
    | inr good ↦ good
  ],
  take-Distinct n ps d.1,
)

pub each_member :
    (P : Pos → Type 0) (ps : List Pos) → ((p : Pos) → mem_pos p ps ≡ true → P p) → All P ps
each_member P [] h = tt
each_member P (p ∷ ps) h =
    (h p (ground (arith, eq_pos_refl p)), each_member P ps λ q m. h q (ground (arith, m)))

-- Writing at free positions changes nothing that is in use.
pub rewritten-Stable :
    {ws : List ℕ} (pool pool' : ArchetypePool) (ps : List Pos)
    → IsPool ws pool
    → ((q : Pos) → mem_pos q ps ≡ true → mem_pos q pool.free_pos ≡ true)
    → IsArchetype (1 ∷ 2 ∷ ws) (get_chunk_count pool) pool'
    → SameFrame pool pool'
    → ((j : ℕ) (q : Pos) → mem_pos q ps ≡ false → read j q pool' ≡ read j q pool)
    → Stable ws pool pool'
rewritten-Stable pool pool' ps v sub s f apart =
    let count_eq = get_chunk_count-IsArchetype pool' s in
    record {
      valid = record {
        shape = rw count_eq s;
        roomy = rw f.chunk_size_eq v.roomy;
        free_in = λ p h. rw (count_eq, f.chunk_size_eq) (v.free_in p (rw f.free_pos_eq at h));
        distinct = rw f.free_pos_eq v.distinct;
      };
      kept = λ q u. record {
        inside = rw (count_eq, f.chunk_size_eq) u.inside;
        taken = rw f.free_pos_eq u.taken;
      };
      only = λ q u. record {
        inside = rw (count_eq, f.chunk_size_eq) at (u.inside);
        taken = rw f.free_pos_eq at (u.taken);
      };
      reads = λ j q u. apart j q (elim (Bool-cases (mem_pos q ps)) [
        | inl bad ↦ ground (arith, sub q bad, u.taken)
        | inr good ↦ good
      ]);
    }

pub take-InGrid :
    {ws : List ℕ} (pool : ArchetypePool) (n : ℕ)
    → IsPool ws pool
    → All (InGrid (get_chunk_count pool) pool.chunk_size) (take n pool.free_pos)
take-InGrid pool n v =
    each_member _ (take n pool.free_pos) λ p h. v.free_in p (mem_pos-take n pool.free_pos p h)
