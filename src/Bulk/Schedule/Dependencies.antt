-- ===== src/Bulk/Schedule/Dependencies.antt =====
-- internal/handler/bulk.go, `computeBulkExecutionOrder`: an operation runs after those it depends on.
use scim_server_impl_go.Base.{
  ℕ, zero, suc, ◌<◌, Bool, true, false, not, ◌&&◌, some, List, [], ◌∷◌, ◌≢◌, false≢true, ◌≡◌, refl,
  sym, ◌∙◌, ◌==◌, if◌then◌else◌, Bool-cases, Option-cases, inl, inr, length, update, any,
  first_below, first_below-IsFirst, first_below-none, arith,
}
use scim_server_impl_go.Bulk.Graph.{Ops, Edges}
use scim_server_impl_go.Bulk.Graph.References.{has_edge, has_edge-cons}
use scim_server_impl_go.Bulk.Schedule.{State, choose, is_ready, schedule, schedule_loop}
use scim_server_impl_go.Bulk.Schedule.Counts.{occurrences, pending, Tracks, schedule-Tracks}
use scim_server_impl_go.Bulk.Schedule.Order.{choose-unscheduled}

-- Edges between `n` operations without a cycle: a rank grows along every edge.
pub record Acyclic (n : ℕ) (rank : ℕ → ℕ) (edges : Edges) : Type 0 where
  pub bound : (a b : ℕ) → has_edge edges a b ≡ true → a < n
  pub grows : (a b : ℕ) → has_edge edges a b ≡ true → rank a < rank b

-- whether the first `a` of an order has a `b` behind it
abbrev pub precedes : ℕ → ℕ → List ℕ → Bool
precedes a b [] = false
precedes a b (c ∷ order) = if c == a then any (λ d. d == b) order else precedes a b order

-- an operation with a pending edge has a source that has not run
pub pending-pos :
    (edges : Edges) (done : ℕ → Bool) (b : ℕ)
    → 0 < pending edges done b
    → (a : ℕ) × (has_edge edges a b ≡ true) × (done a ≡ false)
pending-pos [] done b h = absurd (omega arith)
pending-pos ((from, to) ∷ edges) done b h = elim (Bool-cases (to == b && not (done from))) [
  | inl e ↦ (from, grind arith, ground arith)
  | inr e ↦
      let (a, e', d) = pending-pos edges done b (ground arith) in
      (a, has_edge-cons (from, to) edges a b e', d)
]

-- the sources of an operation with no pending edge have run
pending-zero :
    (edges : Edges) (done : ℕ → Bool) (a b : ℕ)
    → pending edges done b ≡ 0
    → has_edge edges a b ≡ true
    → done a ≡ true
pending-zero [] done a b h e = cc
pending-zero ((from, to) ∷ edges) done a b h e = elim (Bool-cases (from == a && to == b)) [
  | inl here ↦
      let same : (from ≡ a) × (to ≡ b) = (ground arith, ground arith) in rw (← same.0) (grind arith)
  | inr other ↦ pending-zero edges done a b (ground arith) (ground arith)
]

-- with a rank, an operation that has not run leads to one that is ready
ready-some :
    (ops : Ops) (edges : Edges) (rank : ℕ → ℕ) (st : State)
    → Acyclic (length ops) rank edges
    → Tracks edges st
    → (k i : ℕ) → rank i < k
    → i < length ops
    → st.scheduled i ≡ false
    → (j : ℕ) × (j < length ops) × (is_ready st j ≡ true)
unfolding is_ready
ready-some ops edges rank st acyclic tracks zero i r lt h = absurd (omega arith)
ready-some ops edges rank st acyclic tracks (suc k) i r lt h =
    elim (Bool-cases (st.in_degree i == 0)) [
      | inl e ↦ (i, lt, rw (h, e) refl)
      | inr e ↦
          let (a, edge, new) = pending-pos edges st.scheduled i (grind (arith, tracks i)) in
          ready-some ops edges rank st acyclic tracks k a (omega (arith, acyclic.grows a i edge))
            (acyclic.bound a i edge) new
    ]

-- so what is chosen has no dependency left
chosen-pending :
    (ops : Ops) (edges : Edges) (rank : ℕ → ℕ) (st : State) (c : ℕ)
    → Acyclic (length ops) rank edges
    → Tracks edges st
    → choose ops st ≡ some c
    → pending edges st.scheduled c ≡ 0
unfolding choose is_ready
chosen-pending ops edges rank st c acyclic tracks e =
    elim (Option-cases (first_below (length ops) (is_ready st))) [
      | inr (i, found) ↦
          let same : i ≡ c = ground arith in
          let holds : (not (st.scheduled i) && st.in_degree i == 0) ≡ true =
            (first_below-IsFirst (length ops) (is_ready st) i found).holds in
          rw (← same) (grind (arith, tracks i))
      | inl missing ↦
          let (lt, new) = choose-unscheduled ops st c e in
          let (j, lt', ready) =
            ready-some ops edges rank st acyclic tracks (suc (rank c)) c (omega arith) lt new in
          absurd
            (false≢true (sym (first_below-none (length ops) (is_ready st) missing j lt') ∙ ready))
    ]

-- In an order that goes on from those done: whatever is next, all its sources are done.
abbrev pub InOrder : Edges → (ℕ → Bool) → List ℕ → Type 0
InOrder edges done [] = Unit
InOrder edges done (c ∷ order) =
    ((a : ℕ) → has_edge edges a c ≡ true → done a ≡ true) × InOrder edges (update done c true) order

pub schedule_loop-suc :
    (ops : Ops) (edges : Edges) (rounds : ℕ) (st : State) (order : List ℕ)
    → schedule_loop ops edges (suc rounds) st ≡ some order
    → (c : ℕ) × (rest : List ℕ) × (order ≡ c ∷ rest)
      × (choose ops st ≡ some c)
      × (schedule_loop ops edges rounds (schedule edges c st) ≡ some rest)
unfolding schedule_loop
schedule_loop-suc ops edges rounds st order e = elim (Option-cases (choose ops st)) [
  | inl none_c ↦ absurd (ground arith)
  | inr (c, chosen) ↦ elim (Option-cases (schedule_loop ops edges rounds (schedule edges c st))) [
    | inl none_rest ↦ absurd (ground arith)
    | inr (rest, e') ↦ (c, rest, ground arith, chosen, e')
  ]
]

pub schedule_loop-InOrder :
    (ops : Ops) (edges : Edges) (rank : ℕ → ℕ)
    → Acyclic (length ops) rank edges
    → (rounds : ℕ) (st : State) (order : List ℕ) → Tracks edges st
    → schedule_loop ops edges rounds st ≡ some order
    → InOrder edges st.scheduled order
unfolding schedule_loop schedule
schedule_loop-InOrder ops edges rank acyclic zero st order tracks e =
    let same : [] ≡ order = ground arith in rw (← same) tt
schedule_loop-InOrder ops edges rank acyclic (suc rounds) st order tracks e =
    let (c, rest, same, chosen, e') = schedule_loop-suc ops edges rounds st order e in
    let (lt, new) = choose-unscheduled ops st c chosen in
    let none_left = chosen-pending ops edges rank st c acyclic tracks chosen in
    let later =
      schedule_loop-InOrder ops edges rank acyclic rounds (schedule edges c st) rest
        (schedule-Tracks edges c st new tracks) e' in
    rw same ((λ a edge. pending-zero edges st.scheduled a c none_left edge), later)

pub occurrences-any :
    (b : ℕ) (order : List ℕ) → 0 < occurrences b order → any (λ d. d == b) order ≡ true
occurrences-any b [] h = absurd (omega arith)
occurrences-any b (c ∷ order) h = elim (Bool-cases (c == b)) [
  | inl e ↦ rw e refl
  | inr e ↦ rw (e, occurrences-any b order (ground arith)) refl
]

pub InOrder-precedes :
    (edges : Edges) (a b : ℕ)
    → has_edge edges a b ≡ true
    → a ≢ b
    → (done : ℕ → Bool) (order : List ℕ) → InOrder edges done order
    → done a ≡ false
    → 0 < occurrences b order
    → precedes a b order ≡ true
InOrder-precedes edges a b edge ne done [] h new occ = absurd (omega arith)
InOrder-precedes edges a b edge ne done (c ∷ order) h new occ = elim (Bool-cases (c == a)) [
  | inl e ↦ rw e (occurrences-any b order (grind (arith, ne)))
  | inr e ↦ rw e (elim (Bool-cases (c == b)) [
    | inl e' ↦
        let same : c ≡ b = ground arith in absurd (false≢true (sym new ∙ h.0 a (rw same edge)))
    | inr e' ↦
        InOrder-precedes edges a b edge ne (update done c true) order h.1 (rw e new) (grind arith)
  ])
]
