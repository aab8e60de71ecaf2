-- ===== src/Bulk/Schedule/Order.antt =====
-- internal/handler/bulk.go, `computeBulkExecutionOrder`: every operation runs, once.
use scim_server_impl_go.Base.{
  ℕ, zero, suc, ◌+◌, ◌<◌, Bool, true, false, not, ◌&&◌, some, List, [], ◌∷◌, ◌≡◌, refl, ap, ltb,
  leb, ◌==◌, if◌then◌else◌, Bool-cases, Option-cases, inl, inr, length, update, first_below,
  count_below, first_below-IsFirst, first_below-some, count_below-zero, lt→ltb, ltb→lt,
  count_below-pos, count_below-ext, count_below-update, arith, ◌||◌,
}
use scim_server_impl_go.Bulk.Graph.{Ops, Producers, Edges, dependency_edges}
use scim_server_impl_go.Bulk.Refs.{is_nil_map}
use scim_server_impl_go.Bulk.Schedule.{
  State, choose, is_ready, is_post_op, schedule, schedule_loop, initial, range_from,
  compute_bulk_execution_order,
}
use scim_server_impl_go.Bulk.Schedule.Counts.{occurrences}

abbrev pub unscheduled : State → ℕ → Bool
unscheduled st i = not (st.scheduled i)

-- what is found among the operations that have not run
found-unscheduled :
    (n : ℕ) (st : State) (q : ℕ → Bool) (i : ℕ)
    → first_below n (λ j. not (st.scheduled j) && q j) ≡ some i
    → (i < n) × (st.scheduled i ≡ false)
found-unscheduled n st q i e =
    let f = first_below-IsFirst n (λ j. not (st.scheduled j) && q j) i e in
    let holds : (not (st.scheduled i) && q i) ≡ true = f.holds in (f.below, ground arith)

-- what is chosen is an operation that has not run
pub choose-unscheduled :
    (ops : Ops) (st : State) (c : ℕ)
    → choose ops st ≡ some c
    → (c < length ops) × (st.scheduled c ≡ false)
unfolding choose is_ready
choose-unscheduled ops st c h =
    let n = length ops in
    elim (Option-cases (first_below n (is_ready st))) [
      | inr (i, e) ↦
          let same : i ≡ c = ground arith in
          rw (← same) (found-unscheduled n st (λ j. st.in_degree j == 0) i e)
      | inl e ↦
          elim (Option-cases (first_below n (λ j. not (st.scheduled j) && is_post_op ops j))) [
            | inr (i, e') ↦
                let same : i ≡ c = ground arith in
                rw (← same) (found-unscheduled n st (is_post_op ops) i e')
            | inl e' ↦
                let last : first_below n (unscheduled st) ≡ some c = ground arith in
                let f = first_below-IsFirst n (unscheduled st) c last in
                let holds : not (st.scheduled c) ≡ true = f.holds in (f.below, ground arith)
          ]
    ]

-- while an operation has not run, there is one to choose
pub choose-some :
    (ops : Ops) (st : State)
    → 0 < count_below (length ops) (unscheduled st)
    → (c : ℕ) × (choose ops st ≡ some c)
unfolding choose
choose-some ops st h =
    let n = length ops in
    let (i, lt, e) = count_below-pos n (unscheduled st) h in
    let (j, found) = first_below-some n (unscheduled st) i lt e in
    elim (Option-cases (choose ops st)) [ inr some_c ↦ some_c | inl none_c ↦ ground arith ]

-- running an operation takes it out of those that have not run
unscheduled-schedule :
    (n : ℕ) (edges : Edges) (st : State) (c : ℕ)
    → c < n
    → st.scheduled c ≡ false
    → count_below n (unscheduled (schedule edges c st)) + 1 ≡ count_below n (unscheduled st)
unfolding schedule
unscheduled-schedule n edges st c lt h =
    let next = schedule edges c st in
    let same : count_below n (unscheduled next) ≡ count_below n (update (unscheduled st) c false) =
      count_below-ext n (unscheduled next) (update (unscheduled st) c false)
        (λ i lt. ground arith) in
    omega (arith, same, count_below-update n (unscheduled st) c lt (ap not h))

-- whether an operation is still to run: 1 or 0
abbrev pub due : ℕ → (ℕ → Bool) → ℕ → ℕ
due n done i = if ltb i n && not (done i) then 1 else 0

due-none :
    (n : ℕ) (st : State) → count_below n (unscheduled st) ≡ 0 → (i : ℕ) → 0 ≡ due n st.scheduled i
due-none n st h i = elim (Bool-cases (ltb i n)) [
  | inl e ↦
      let e' : not (st.scheduled i) ≡ false =
        count_below-zero n (unscheduled st) h i (ltb→lt i n e) in
      rw (e, e') refl
  | inr e ↦ rw e refl
]

due-update :
    (n : ℕ) (done : ℕ → Bool) (c i : ℕ)
    → c < n
    → done c ≡ false
    → due n done i ≡ (if c == i then 1 else 0) + due n (update done c true) i
due-update n done c i lt h = elim (Bool-cases (c == i)) [
  | inl e ↦
      let same : c ≡ i = ground arith in
      let at_c : ltb c n ≡ true = lt→ltb c n lt in rw (← same) (grind arith)
  | inr e ↦ rw e (grind arith)
]

pub schedule_loop-cons :
    (ops : Ops) (edges : Edges) (rounds : ℕ) (st : State) (c : ℕ) (order : List ℕ)
    → choose ops st ≡ some c
    → schedule_loop ops edges rounds (schedule edges c st) ≡ some order
    → schedule_loop ops edges (suc rounds) st ≡ some (c ∷ order)
unfolding schedule_loop
schedule_loop-cons ops edges rounds st c order chosen e = rw (chosen, e, schedule_loop) refl

due-schedule :
    (n : ℕ) (edges : Edges) (st : State) (c i : ℕ) (order : List ℕ)
    → c < n
    → st.scheduled c ≡ false
    → occurrences i order ≡ due n (schedule edges c st).scheduled i
    → occurrences i (c ∷ order) ≡ due n st.scheduled i
unfolding schedule
due-schedule n edges st c i order lt h occ = omega (arith, occ, due-update n st.scheduled c i lt h)

-- The loop runs every operation that has not run, once.
pub schedule_loop-occurrences :
    (ops : Ops) (edges : Edges) (rounds : ℕ) (st : State)
    → count_below (length ops) (unscheduled st) ≡ rounds
    → (order : List ℕ) × (schedule_loop ops edges rounds st ≡ some order)
      × ((i : ℕ) → occurrences i order ≡ due (length ops) st.scheduled i)
unfolding schedule_loop
schedule_loop-occurrences ops edges zero st h = ([], refl, due-none (length ops) st h)
schedule_loop-occurrences ops edges (suc rounds) st h =
    let (c, chosen) = choose-some ops st (omega (arith, h)) in
    let (lt, is_new) = choose-unscheduled ops st c chosen in
    let next = schedule edges c st in
    let (order, e, occ) =
      schedule_loop-occurrences ops edges rounds next
        (omega (arith, h, unscheduled-schedule (length ops) edges st c lt is_new)) in
    (
      c ∷ order,
      schedule_loop-cons ops edges rounds st c order chosen e,
      λ i. due-schedule (length ops) edges st c i order lt is_new (occ i),
    )

count_below-all : (n : ℕ) → count_below n (λ i. true) ≡ n
unfolding count_below
count_below-all zero = refl
count_below-all (suc n) = omega (arith, count_below-all n)

pub range_from-occurrences :
    (k n i : ℕ) → occurrences i (range_from k n) ≡ (if leb k i && ltb i (k + n) then 1 else 0)
unfolding range_from
range_from-occurrences k zero i = grind arith
range_from-occurrences k (suc n) i = grind (arith, range_from-occurrences (suc k) n i)

-- The computation of the order of a bulk request ends, without a write behind an array's end, and the
-- order holds each index below the number of the operations once, and no other index.
pub compute_bulk_execution_order-occurrences :
    (ops : Ops) (producers : Producers)
    → (order : List ℕ) × (compute_bulk_execution_order ops producers ≡ some order)
      × ((i : ℕ) → occurrences i order ≡ (if ltb i (length ops) then 1 else 0))
unfolding compute_bulk_execution_order initial
compute_bulk_execution_order-occurrences ops producers =
    elim (Bool-cases (leb (length ops) 1 || is_nil_map producers)) [
      | inl e ↦ (
        range_from 0 (length ops),
        rw e refl,
        λ i. grind (arith, range_from-occurrences 0 (length ops) i),
      )
      | inr e ↦
          let edges = dependency_edges ops producers in
          let (order, done, occ) =
            schedule_loop-occurrences ops edges (length ops) (initial edges)
              (count_below-all (length ops)) in
          (order, rw e done, λ i. grind (arith, occ i))
    ]
