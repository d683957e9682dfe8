-- ===== src/Ecs/Manager/Mass/Frees.antt =====
-- libs/lib_ecs/EntityManager.cpp: the handles and positions of many entities put on the free lists.
use project_e.Common.{
  ℕ, ◌≡◌, refl, ap, ◌∙◌, sym, false, some, List, [], ◌∷◌, ◌++◌, arith, get_elem?, set, set-set,
  subst, get_elem?-set, append-nil, append-snoc,
}
use project_e.Ecs.Pos.{Pos, eq_pos, eq_pos_iff}
use project_e.Ecs.Archetypes.{ArchetypePool}
use project_e.Ecs.Manager.{Manager}
use project_e.Ecs.Manager.Free.{mem_pos, Distinct}
use project_e.Ecs.Manager.Releases.{freed, put_free-Freed}
use project_e.Ecs.Manager.Links.{Linked, Entity, Inv}
use project_e.Ecs.Manager.Destroy.{destroyed-Inv, kept-Entity}
use project_e.Ecs.Manager.Batch.Pops.{AreMade, with_free, with_free_same}

-- The entities of these handles are gone, and every other one is where it was.
pub record Left (m : Manager) (handles : List Pos) (result : Manager) : Type 0 where
  pub valid : Inv result
  pub kept :
      (q : Pos) (e : Entity m q)
      → mem_pos q handles ≡ false
      → (f : Entity result q) × (f.k ≡ e.k) × (f.slot ≡ e.slot)

whole-Left : (m : Manager) → Inv m → Left m [] m
whole-Left m i = record { valid = i; kept = λ q e h. (e, refl, refl) }

AreMade-along :
    (m m' : Manager) (k : ℕ) (h : Pos) (slots handles : List Pos)
    → ((q : Pos) (e : Entity m q)
        → eq_pos h q ≡ false
        → (f : Entity m' q) × (f.k ≡ e.k) × (f.slot ≡ e.slot))
    → mem_pos h handles ≡ false
    → AreMade m k slots handles
    → AreMade m' k slots handles
AreMade-along m m' k h [] [] kept d a = tt
AreMade-along m m' k h [] (x ∷ handles) kept d a = a
AreMade-along m m' k h (s ∷ slots) [] kept d a = a
AreMade-along m m' k h (s ∷ slots) (x ∷ handles) kept d ((e, k_eq, s_eq), a) =
    let (f, k_eq', s_eq') = kept x e (ground arith) in
    ((f, k_eq' ∙ k_eq, s_eq' ∙ s_eq), AreMade-along m m' k h slots handles kept (ground arith) a)

-- The link of an entity whose pool and position are known
pub link_at :
    (m : Manager) (k : ℕ) (pool : ArchetypePool) (s h : Pos) (e : Entity m h)
    → get_elem? m.pools k ≡ some pool
    → e.k ≡ k
    → e.slot ≡ s
    → Linked pool m.ptrs k s h
link_at m k pool s h e at k_eq s_eq =
    let pool_eq : pool ≡ e.pool = ground (arith, at, e.found, k_eq) in
    rw (sym k_eq, pool_eq, sym s_eq) e.linked

pub frees :
    (m : Manager) (k : ℕ) (pool : ArchetypePool) (slots handles : List Pos)
    → Inv m
    → get_elem? m.pools k ≡ some pool
    → AreMade m k slots handles
    → Distinct handles
    → Left m handles (with_free m k pool (pool.free_pos ++ slots) (m.ptrs.free_pos ++ handles))
frees m k pool [] [] i at a d =
    subst (Left m [])
      (with_free_same m k pool (pool.free_pos ++ []) (m.ptrs.free_pos ++ []) at
        (sym (append-nil pool.free_pos)) (sym (append-nil m.ptrs.free_pos)))
      (whole-Left m i)
frees m k pool [] (h ∷ handles) i at a d = elim a [ ]
frees m k pool (s ∷ slots) [] i at a d = elim a [ ]
frees m k pool (s ∷ slots) (h ∷ handles) i at ((e, k_eq, s_eq), a) d =
    let (ws, v) = i.pools_valid k pool at in
    let l = link_at m k pool s h e at k_eq s_eq in
    let pool' : ArchetypePool = freed s pool in
    let ptrs' : ArchetypePool = freed h m.ptrs in
    let t = put_free-Freed ws pool s v l.slot_used in
    let u = put_free-Freed (1 ∷ []) m.ptrs h i.ptrs_valid l.ptr_used in
    let m' : Manager = record { pools = set m.pools k pool'; ptrs = ptrs' } in
    let at' : get_elem? m'.pools k ≡ some pool' =
      ground (arith, get_elem?-set m.pools k k pool' at) in
    let kept = kept-Entity m k pool s h i at l pool' ptrs' t u in
    let r =
      frees m' k pool' slots handles (destroyed-Inv m k pool s h i at l pool' ptrs' t u) at'
        (AreMade-along m m' k h slots handles kept d.0 a) d.1 in
    let all : Left m (h ∷ handles)
        (with_free m' k pool' (pool'.free_pos ++ slots) (ptrs'.free_pos ++ handles)) =
      record {
        valid = r.valid;
        kept = λ q x apart.
            let (y, k_eq', s_eq') =
              kept q x (ground (arith, eq_pos_iff h q, eq_pos_iff q h, apart)) in
            let (z, k_eq'', s_eq'') = r.kept q y (ground (arith, apart)) in
            (z, k_eq'' ∙ k_eq', s_eq'' ∙ s_eq');
      } in
    subst (Left m (h ∷ handles))
      (ap
          (λ ps. record {
            pools = ps;
            ptrs = record m.ptrs { free_pos = ptrs'.free_pos ++ handles };
          })
          (set-set m.pools k pool' (record pool { free_pos = pool'.free_pos ++ slots }))
        ∙ (λ j.
            with_free m k pool (append-snoc pool.free_pos s slots j)
              (append-snoc m.ptrs.free_pos h handles j)))
      all
