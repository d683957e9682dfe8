-- ===== src/Net/Base/Hosting.antt =====
-- libs/lib_net/super/BaseServer.cpp: `host_tcp` and `host_udp` on a server whose poll is set up.
use project_e.Common.{
  ℕ, ◌+◌, ◌≤◌, ◌≡◌, refl, sym, ap, subst, true, false, Option, some, arith, ◌==◌, ==_iff,
  Bool-cases, inl, inr,
}
use project_e.Net.Result.{success}
use project_e.Net.Poll.Refines.{reads_of}
use project_e.Net.Base.{BaseServer, host_tcp, host_udp}
use project_e.Net.Base.Dispatch.{is_fd}
use project_e.Net.Base.Tables.{bit}
use project_e.Net.Base.Invariant.{IsContext, owners}

-- The new socket is the server's and is not watched, the one that it replaces is watched and is no
-- longer the server's, and nothing is closed.
abbrev pub Unwatched : ℕ → Option ℕ → BaseServer → BaseServer → Type 0
Unwatched fd replaced s s' =
    (owners fd s' ≡ 1)
    × (reads_of fd s'.poll ≡ false)
    × ((g : ℕ) → replaced ≡ some g → (owners g s' ≡ 0) × (reads_of g s'.poll ≡ true))
    × (s'.closed ≡ s.closed)
    × ¬ IsContext s'

differs : (fd g : ℕ) (s : BaseServer) → owners fd s ≡ 0 → 1 ≤ owners g s → (g == fd) ≡ false
differs fd g s free owned = elim (Bool-cases (g == fd)) [
  | inl e ↦
      absurd (omega (arith, owned, subst (λ x. owners x s ≡ 0) (sym ((==_iff g fd).0 e)) free))
  | inr e ↦ e
]

unwatched :
    (fd : ℕ) (replaced : Option ℕ) (s s' : BaseServer)
    → owners fd s ≡ 0
    → IsContext s
    → s'.poll ≡ s.poll
    → s'.closed ≡ s.closed
    → ((g : ℕ) → bit (is_fd g replaced) ≤ owners g s)
    → ((g : ℕ) → owners g s' + bit (is_fd g replaced) ≡ owners g s + bit (g == fd))
    → Unwatched fd replaced s s'
unfolding is_fd
unwatched fd replaced s s' free (t, o, k) poll closed had moved =
    let owns : owners fd s' ≡ 1 =
      omega (arith, moved fd, had fd, free, ap bit ((==_iff fd fd).1 refl)) in
    let unseen : reads_of fd s'.poll ≡ false = rw poll (ground (arith, (o fd).1, free)) in
    (
      owns,
      unseen,
      λ g e.
          let owned : 1 ≤ owners g s =
            omega (arith, had g, ap (λ x. bit (is_fd g x)) e, ap bit ((==_iff g g).1 refl)) in
          (
            omega (
              arith,
              moved g,
              ap bit (differs fd g s free owned),
              (o g).0,
              ap (λ x. bit (is_fd g x)) e,
              ap bit ((==_iff g g).1 refl),
            ),
            rw poll (ground (arith, (o g).1, owned)),
          ),
      closed,
      λ (t', o', k'). ground (arith, (o' fd).1, owns, unseen),
    )

-- On a server whose poll is set up, a `host_tcp` or `host_udp` that succeeds, with a descriptor that no
-- socket of the server has, breaks the invariant: the new socket is the server's but the poll does not watch
-- it, the socket that it replaces is still watched but is no longer the server's, and nothing is closed.
pub host-Unwatched :
    (fd : ℕ) (s : BaseServer)
    → owners fd s ≡ 0
    → IsContext s
    → Unwatched fd s.tcp_listener s (host_tcp (success fd) s).1
      × Unwatched fd s.udp_socket s (host_udp (success fd) s).1
unfolding host_tcp host_udp is_fd
host-Unwatched fd s free h = (
  unwatched fd s.tcp_listener s (host_tcp (success fd) s).1 free h refl refl (λ g. omega arith)
      (λ g. omega arith),
  unwatched fd s.udp_socket s (host_udp (success fd) s).1 free h refl refl (λ g. omega arith)
      (λ g. omega arith),
)
