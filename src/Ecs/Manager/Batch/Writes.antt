-- ===== src/Ecs/Manager/Batch/Writes.antt =====
-- libs/lib_ecs/Components/ComponentPool.hpp: a component set at many positions.
use project_e.Common.{
  ℕ, ◌≡◌, refl, ap, ◌∙◌, sym, true, false, Option, some, List, [], ◌∷◌, arith, length, map, All,
  Bool-cases, inl, inr, subst, ◌>>=◌,
}
use project_e.Ecs.Pos.{Pos, eq_pos, eq_pos_iff, eq_pos_refl}
use project_e.Ecs.Chunks.{ChunkPool}
use project_e.Ecs.Chunks.Access.{InGrid}
use project_e.Ecs.Components.{
  get_component, set_component, set_component_at_indexes, set_components_at_indexes,
}
use project_e.Ecs.Components.Access.{AreGrids, set_component_total}
use project_e.Ecs.Manager.Free.{mem_pos, Distinct}

-- `f` gives these rows at these positions.
abbrev pub Holds : (Pos → Option (List ℕ)) → List Pos → List (List ℕ) → Type 0
Holds f [] [] = Unit {0}
Holds f (p ∷ ps) (vs ∷ rows) = (f p ≡ some vs) × Holds f ps rows
Holds f _ _ = ⊥

pub Holds-along :
    (f g : Pos → Option (List ℕ)) (ps : List Pos) (rows : List (List ℕ))
    → ((q : Pos) → f q ≡ g q)
    → Holds f ps rows
    → Holds g ps rows
Holds-along f g [] [] e h = tt
Holds-along f g [] (vs ∷ rows) e h = h
Holds-along f g (p ∷ ps) [] e h = h
Holds-along f g (p ∷ ps) (vs ∷ rows) e h = (sym (e p) ∙ h.0, Holds-along f g ps rows e h.1)

-- One row at every position of the list
pub Holds-same :
    (f : Pos → Option (List ℕ)) (ps : List Pos) (vs : List ℕ) (q : Pos)
    → Holds f ps (map (λ p. vs) ps)
    → mem_pos q ps ≡ true
    → f q ≡ some vs
Holds-same f [] vs q h m = absurd (ground arith)
Holds-same f (p ∷ ps) vs q h m = elim (Bool-cases (eq_pos q p)) [
  | inl same ↦ subst (λ x. f x ≡ some vs) (sym ((eq_pos_iff q p).0 same)) h.0
  | inr other ↦ Holds-same f ps vs q h.1 (ground arith)
]

-- The rows are written, and what stands at the other positions stays.
pub record Put (count size : ℕ) (pools : List ChunkPool) (ps : List Pos) (rows : List (List ℕ))
    (outcome : Option (List ChunkPool)) : Type 0 where
  pub result : List ChunkPool
  pub returned : outcome ≡ some result
  pub grids : AreGrids count size result
  pub width : length result ≡ length pools
  pub apart : (q : Pos) → mem_pos q ps ≡ false → get_component result q ≡ get_component pools q
  pub holds : Holds (get_component result) ps rows

pub set_components_total :
    (count size : ℕ) (pools : List ChunkPool) (ps : List Pos) (rows : List (List ℕ))
    → AreGrids count size pools
    → All (InGrid count size) ps
    → Distinct ps
    → All (λ vs. length vs ≡ length pools) rows
    → length rows ≡ length ps
    → Put count size pools ps rows (set_components_at_indexes pools ps rows)
unfolding set_components_at_indexes
set_components_total count size pools [] [] gs hs d ws n = record {
  result = pools;
  returned = refl;
  grids = gs;
  width = refl;
  apart = λ q h. refl;
  holds = tt;
}
set_components_total count size pools [] (vs ∷ rows) gs hs d ws n = absurd (omega arith)
set_components_total count size pools (p ∷ ps) [] gs hs d ws n = absurd (omega arith)
set_components_total count size pools (p ∷ ps) (vs ∷ rows) gs hs d ws n =
    let w = set_component_total count size pools p vs gs hs.0 ws.0 in
    let r =
      set_components_total count size w.result ps rows w.grids hs.1 d.1 (rw w.width ws.1)
        (omega arith) in
    record {
      result = r.result;
      returned = rw (w.returned, ◌>>=◌) r.returned;
      grids = r.grids;
      width = r.width ∙ w.width;
      apart = λ q h. ground (arith, r.apart q, w.reads q, eq_pos_iff p q, eq_pos_iff q p);
      holds = (ground (arith, r.apart p, d.0, w.reads p, eq_pos_refl p), r.holds);
    }

-- Setting one component at many positions sets it at each.
pub set_component_each :
    (pools : List ChunkPool) (ps : List Pos) (vs : List ℕ)
    → set_component_at_indexes pools ps vs ≡ set_components_at_indexes pools ps (map (λ p. vs) ps)
unfolding set_component_at_indexes set_components_at_indexes
set_component_each pools [] vs = refl
set_component_each pools (p ∷ ps) vs =
    ap (λ f. set_component pools p vs >>= f) (λ i pools'. set_component_each pools' ps vs i)
