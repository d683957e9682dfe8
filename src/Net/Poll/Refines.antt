-- ===== src/Net/Poll/Refines.antt =====
-- libs/lib_net/net/Poll.cpp: the table as the set of events that are watched on each descriptor.
use project_e.Common.{
  ℕ, ◌≡◌, refl, Bool, true, false, not, ◌||◌, ◌&&◌, List, [], ◌∷◌, arith, ◌==◌, if◌then◌else◌,
  Bool-cases, inl, inr,
}
use project_e.Net.Poll.{Fd, add, add_write, remove, remove_write, erase_in_place, drop_equal}

abbrev pub has : ℕ → List Fd → Bool
has fd [] = false
has fd (p ∷ ps) = p.fd == fd || has fd ps

-- No descriptor stands in the table twice, and each is watched for something.
abbrev pub IsTable : List Fd → Type 0
IsTable [] = Unit {0}
IsTable (p ∷ ps) = (has p.fd ps ≡ false) × ((p.reads || p.writes) ≡ true) × IsTable ps

-- Whether reads and writes of a descriptor are watched
abbrev pub reads_of : ℕ → List Fd → Bool
reads_of fd [] = false
reads_of fd (p ∷ ps) = if p.fd == fd then p.reads else reads_of fd ps

abbrev pub writes_of : ℕ → List Fd → Bool
writes_of fd [] = false
writes_of fd (p ∷ ps) = if p.fd == fd then p.writes else writes_of fd ps

pub data Op : Type 0 where
  adds add_writes removes remove_writes : ℕ → Op

abbrev pub step : Op → List Fd → List Fd
step (adds fd) ps = add fd ps
step (add_writes fd) ps = add_write fd ps
step (removes fd) ps = remove fd ps
step (remove_writes fd) ps = remove_write fd ps

-- What an operation asks for, as sets
abbrev pub wants_read : Op → ℕ → Bool → Bool
wants_read (adds fd) g old = g == fd || old
wants_read (add_writes fd) g old = old
wants_read (removes fd) g old = not (g == fd) && old
wants_read (remove_writes fd) g old = old

abbrev pub wants_write : Op → ℕ → Bool → Bool
wants_write (adds fd) g old = old
wants_write (add_writes fd) g old = g == fd || old
wants_write (removes fd) g old = not (g == fd) && old
wants_write (remove_writes fd) g old = not (g == fd) && old

has-add : (fd g : ℕ) (ps : List Fd) → has g (add fd ps) ≡ (has g ps || g == fd)
unfolding add
has-add fd g [] = ground arith
has-add fd g (p ∷ ps) = ground (arith, has-add fd g ps)

has-add_write : (fd g : ℕ) (ps : List Fd) → has g (add_write fd ps) ≡ (has g ps || g == fd)
unfolding add_write
has-add_write fd g [] = ground arith
has-add_write fd g (p ∷ ps) = ground (arith, has-add_write fd g ps)

has-remove : (fd g : ℕ) (ps : List Fd) → has g (remove fd ps) ≡ (has g ps && not (g == fd))
unfolding remove
has-remove fd g [] = ground arith
has-remove fd g (p ∷ ps) = ground (arith, has-remove fd g ps)

drop_equal_absent : (fd : ℕ) (ps : List Fd) → has fd ps ≡ false → drop_equal fd ps ≡ ps
unfolding drop_equal
drop_equal_absent fd [] h = refl
drop_equal_absent fd (p ∷ ps) h = ground (arith, drop_equal_absent fd ps)

erase_in_place_absent :
    (p : Fd) (ps : List Fd) → has p.fd ps ≡ false → IsTable ps → erase_in_place p ps ≡ ps
unfolding erase_in_place
erase_in_place_absent p [] h t = refl
erase_in_place_absent p (q ∷ qs) h t = ground (arith, drop_equal_absent q.fd qs t.0)

has-remove_write :
    (fd g : ℕ) (ps : List Fd) → IsTable ps → has g ps ≡ false → has g (remove_write fd ps) ≡ false
unfolding remove_write
has-remove_write fd g [] t h = refl
has-remove_write fd g (p ∷ ps) t h =
    ground (arith, has-remove_write fd g ps t.2, erase_in_place_absent p ps t.0 t.2)

absent_reads :
    (fd : ℕ) (ps : List Fd)
    → has fd ps ≡ false
    → (reads_of fd ps ≡ false) × (writes_of fd ps ≡ false)
absent_reads fd [] h = (refl, refl)
absent_reads fd (p ∷ ps) h = ground (arith, absent_reads fd ps)

-- The table after an operation watches what was asked for.
pub record Watches (op : Op) (ps : List Fd) (g : ℕ) : Type 0 where
  pub reads : reads_of g (step op ps) ≡ wants_read op g (reads_of g ps)
  pub writes : writes_of g (step op ps) ≡ wants_write op g (writes_of g ps)

step-IsTable : (op : Op) (ps : List Fd) → IsTable ps → IsTable (step op ps)
unfolding add add_write remove remove_write
step-IsTable (adds fd) [] t = (refl, refl, tt)
step-IsTable (adds fd) (p ∷ ps) t = elim (Bool-cases (p.fd == fd)) [
  | inl hit ↦ rw hit (t.0, refl, t.2)
  | inr miss ↦ rw miss (ground (arith, has-add fd p.fd ps), t.1, step-IsTable (adds fd) ps t.2)
]
step-IsTable (add_writes fd) [] t = (refl, refl, tt)
step-IsTable (add_writes fd) (p ∷ ps) t = elim (Bool-cases (p.fd == fd)) [
  | inl hit ↦ rw hit (t.0, ground arith, t.2)
  | inr miss ↦
      rw miss (ground (arith, has-add_write fd p.fd ps), t.1, step-IsTable (add_writes fd) ps t.2)
]
step-IsTable (removes fd) [] t = tt
step-IsTable (removes fd) (p ∷ ps) t = elim (Bool-cases (p.fd == fd)) [
  | inl hit ↦ rw hit (step-IsTable (removes fd) ps t.2)
  | inr miss ↦
      rw miss (ground (arith, has-remove fd p.fd ps), t.1, step-IsTable (removes fd) ps t.2)
]
step-IsTable (remove_writes fd) [] t = tt
step-IsTable (remove_writes fd) (p ∷ ps) t = elim (Bool-cases (p.fd == fd)) [
  | inl hit ↦ elim (Bool-cases p.reads) [
    | inl kept ↦ rw (hit, kept) (t.0, ground arith, t.2)
    | inr gone ↦ rw (hit, gone, erase_in_place_absent p ps t.0 t.2) t.2
  ]
  | inr miss ↦
      rw miss (has-remove_write fd p.fd ps t.2 t.0, t.1, step-IsTable (remove_writes fd) ps t.2)
]

step-Watches : (op : Op) (ps : List Fd) (g : ℕ) → IsTable ps → Watches op ps g
unfolding add add_write remove remove_write
step-Watches (adds fd) [] g t = record { reads = ground arith; writes = ground arith }
step-Watches (adds fd) (p ∷ ps) g t =
    let w = step-Watches (adds fd) ps g t.2 in
    record { reads = ground (arith, w.reads); writes = ground (arith, w.writes) }
step-Watches (add_writes fd) [] g t = record { reads = ground arith; writes = ground arith }
step-Watches (add_writes fd) (p ∷ ps) g t =
    let w = step-Watches (add_writes fd) ps g t.2 in
    record { reads = ground (arith, w.reads); writes = ground (arith, w.writes) }
step-Watches (removes fd) [] g t = record { reads = ground arith; writes = ground arith }
step-Watches (removes fd) (p ∷ ps) g t =
    let w = step-Watches (removes fd) ps g t.2 in
    record { reads = ground (arith, w.reads); writes = ground (arith, w.writes) }
step-Watches (remove_writes fd) [] g t = record { reads = ground arith; writes = ground arith }
step-Watches (remove_writes fd) (p ∷ ps) g t =
    let w = step-Watches (remove_writes fd) ps g t.2 in
    let e = erase_in_place_absent p ps t.0 t.2 in
    let absent = absent_reads p.fd ps t.0 in
    record {
      reads = ground (arith, w.reads, e, absent);
      writes = ground (arith, w.writes, e, absent);
    }

-- On a table where each descriptor stands once and is watched for something, every operation keeps
-- this, and afterwards exactly those events are watched that the operation asks for, although
-- `std::remove` is given a reference into the table that it changes.
pub step_refines :
    (op : Op) (ps : List Fd) (g : ℕ) → IsTable ps → IsTable (step op ps) × Watches op ps g
step_refines op ps g t = (step-IsTable op ps t, step-Watches op ps g t)
