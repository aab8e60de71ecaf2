-- ===== src/Bulk/Schedule/Counts.antt =====
-- internal/handler/bulk.go, `computeBulkExecutionOrder`: what `inDegree` counts while the loop runs.
use scim_server_impl_go.Base.{
  ℕ, ◌+◌, ◌-◌, Bool, true, false, not, ◌&&◌, List, [], ◌∷◌, ◌≡◌, refl, ltb, ◌==◌, if◌then◌else◌,
  Bool-cases, inl, inr, update, arith,
}
use scim_server_impl_go.Bulk.Graph.{Edges}
use scim_server_impl_go.Bulk.Schedule.{State, dependents, in_degree_of, release, schedule, initial}

-- how often a list holds an index
abbrev pub occurrences : ℕ → List ℕ → ℕ
occurrences i [] = 0
occurrences i (j ∷ l) = (if j == i then 1 else 0) + occurrences i l

-- the edges to an index from those not yet scheduled
abbrev pub pending : Edges → (ℕ → Bool) → ℕ → ℕ
pending [] done i = 0
pending ((from, to) ∷ edges) done i =
    (if to == i && not (done from) then 1 else 0) + pending edges done i

release_step :
    (d : ℕ → ℕ) (dep t : ℕ)
    → (if ltb 0 (d dep) then update d dep (d dep - 1) else d) t ≡ d t - (if dep == t then 1 else 0)
release_step d dep t = elim (Bool-cases (ltb 0 (d dep))) [
  | inl e ↦ rw e (grind arith)
  | inr e ↦ rw e (grind arith)
]

pub release_lem : (d : ℕ → ℕ) (deps : List ℕ) (t : ℕ) → release d deps t ≡ d t - occurrences t deps
unfolding release
release_lem d [] t = omega arith
release_lem d (dep ∷ more) t = omega (
  arith,
  release_lem (if ltb 0 (d dep) then update d dep (d dep - 1) else d) more t,
  release_step d dep t,
)

-- scheduling an index takes its edges away
pub pending-update :
    (edges : Edges) (done : ℕ → Bool) (c t : ℕ)
    → done c ≡ false
    → pending edges done t
      ≡ pending edges (update done c true) t + occurrences t (dependents edges c)
unfolding dependents
pending-update [] done c t h = refl
pending-update ((from, to) ∷ edges) done c t h = elim (Bool-cases (from == c)) [
  | inl e ↦ rw e (grind (arith, pending-update edges done c t h))
  | inr e ↦ grind (arith, pending-update edges done c t h, e)
]

-- The counters are the number of edges from the operations that have not run.
abbrev pub Tracks : Edges → State → Type 0
Tracks edges st = (t : ℕ) → st.in_degree t ≡ pending edges st.scheduled t

pub initial-Tracks : (edges : Edges) → Tracks edges (initial edges)
unfolding initial in_degree_of
initial-Tracks [] t = refl
initial-Tracks ((from, to) ∷ edges) t = grind (arith, initial-Tracks edges t)

pub schedule-Tracks :
    (edges : Edges) (c : ℕ) (st : State)
    → st.scheduled c ≡ false
    → Tracks edges st
    → Tracks edges (schedule edges c st)
unfolding schedule
schedule-Tracks edges c st h tracks t = omega (
  arith,
  release_lem st.in_degree (dependents edges c) t,
  pending-update edges st.scheduled c t h,
  tracks t,
)
