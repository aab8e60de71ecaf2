-- ===== src/Bulk/Graph/Closure.antt =====
-- internal/handler/bulk.go, `computePostProducerClosure`: the search visits all that it has to.
use scim_server_impl_go.Base.{
  ℕ, zero, suc, ◌+◌, ◌≤◌, ◌<◌, Bool, true, false, not, ◌||◌, List, [], ◌∷◌, ◌++◌, ◌≡◌, refl, subst,
  false≢true, sym, ap, ◌∙◌, ◌⊎◌, inl, inr, ◌==◌, Bool-cases, length, length-append, arith, All,
  All-weaken, update, count_below, count_below-ext, count_below-update, count_below-bound,
}
use scim_server_impl_go.Bulk.Graph.{
  Ops, Producers, mem, direct_deps, visit, search_from, producer_closure,
}
use scim_server_impl_go.Bulk.Graph.Bounds.{Below, Within, direct_deps-Below, search_from-All}

mem-nil : (i : ℕ) → mem i [] ≡ false
unfolding mem
mem-nil i = refl

mem-cons : (i x : ℕ) (l : List ℕ) → mem i (x ∷ l) ≡ true → (i ≡ x) ⊎ (mem i l ≡ true)
unfolding mem
mem-cons i x l h = elim (Bool-cases (i == x)) [
  | inl e ↦ inl (ground arith)
  | inr e ↦ inr (ground arith)
]

mem-last : (i x : ℕ) (l : List ℕ) → mem i (l ++ x ∷ []) ≡ (mem i l || i == x)
unfolding mem
mem-last i x [] = grind arith
mem-last i x (y ∷ l) = grind (arith, mem-last i x l)

-- the indexes below `n` that are not visited
abbrev unvisited : ℕ → List ℕ → ℕ
unvisited n visited = count_below n (λ i. not (mem i visited))

unvisited-last :
    (n x : ℕ) (visited : List ℕ)
    → x < n
    → mem x visited ≡ false
    → unvisited n (visited ++ x ∷ []) + 1 ≡ unvisited n visited
unvisited-last n x visited lt new =
    let p : ℕ → Bool = λ i. not (mem i visited) in
    let same : unvisited n (visited ++ x ∷ []) ≡ count_below n (update p x false) =
      count_below-ext n (λ i. not (mem i (visited ++ x ∷ []))) (update p x false) (λ i h. at i) in
    omega (arith, same, count_below-update n p x lt (ap not new))
  where
    at : (i : ℕ) → not (mem i (visited ++ x ∷ [])) ≡ update (λ j. not (mem j visited)) x false i
    at i = rw (mem-last i x visited) (grind arith)

-- What one round does to the marks and the queue.
record Visited (n : ℕ) (deps visited queue visited' queue' : List ℕ) : Type 0 where
  rounds : unvisited n visited' + length queue' ≡ unvisited n visited + length queue
  keeps : (i : ℕ) → mem i visited ≡ true → mem i visited' ≡ true
  queued : (i : ℕ) → mem i queue ≡ true → mem i queue' ≡ true
  marked : All (λ j. mem j visited' ≡ true) deps
  new : (i : ℕ) → mem i visited' ≡ true → (mem i visited ≡ true) ⊎ (mem i queue' ≡ true)

mem-keeps : (i x : ℕ) (l : List ℕ) → mem i l ≡ true → mem i (l ++ x ∷ []) ≡ true
mem-keeps i x l h = mem-last i x l ∙ rw h refl

mem_self : (x : ℕ) (l : List ℕ) → mem x (l ++ x ∷ []) ≡ true
mem_self x l = mem-last x x l ∙ grind arith

mem-last-cases :
    (i x : ℕ) (visited queue queue' : List ℕ)
    → (mem i (queue ++ x ∷ []) ≡ true → mem i queue' ≡ true)
    → mem i (visited ++ x ∷ []) ≡ true
    → (mem i visited ≡ true) ⊎ (mem i queue' ≡ true)
mem-last-cases i x visited queue queue' queued h =
    let h' : (mem i visited || i == x) ≡ true = sym (mem-last i x visited) ∙ h in
    elim (Bool-cases (i == x)) [
      | inl e ↦ inr (queued (mem-last i x queue ∙ rw e (or_true (mem i queue))))
      | inr e ↦ inl (or_false (mem i visited) (i == x) h' e)
    ]
  where
    or_true : (b : Bool) → (b || true) ≡ true
    or_true true = refl
    or_true false = refl

    or_false : (b c : Bool) → (b || c) ≡ true → c ≡ false → b ≡ true
    or_false true c h e = refl
    or_false false c h e = cc

visit-Visited :
    (n : ℕ) (deps visited queue : List ℕ)
    → Below n deps
    → Visited n deps visited queue (visit deps visited queue).0 (visit deps visited queue).1
unfolding visit
visit-Visited n [] visited queue h = record {
  rounds = refl;
  keeps = λ i m. m;
  queued = λ i m. m;
  marked = tt;
  new = λ i m. inl m;
}
visit-Visited n (nxt ∷ more) visited queue h = elim (Bool-cases (mem nxt visited)) [
  | inl old ↦
      let v = visit-Visited n more visited queue h.1 in
      rw (old, visit)
        (record {
          rounds = v.rounds;
          keeps = v.keeps;
          queued = v.queued;
          marked = (v.keeps nxt old, v.marked);
          new = v.new;
        })
  | inr fresh ↦
      let v = visit-Visited n more (visited ++ nxt ∷ []) (queue ++ nxt ∷ []) h.1 in
      rw (fresh, visit)
        (record {
          rounds = omega (
            arith,
            v.rounds,
            unvisited-last n nxt visited h.0 fresh,
            length-append queue (nxt ∷ []),
          );
          keeps = λ i m. v.keeps i (mem-keeps i nxt visited m);
          queued = λ i m. v.queued i (mem-keeps i nxt queue m);
          marked = (v.keeps nxt (mem_self nxt visited), v.marked);
          new = λ i m. elim (v.new i m) [
            | inr q ↦ inr q
            | inl s ↦ mem-last-cases i nxt visited queue _ (v.queued i) s
          ];
        })
]

-- Whatever is visited is in the queue, or has all its dependencies visited.
abbrev Searched : (ℕ → List ℕ) → List ℕ → List ℕ → Type 0
Searched deps visited queue =
    (i : ℕ) → mem i visited ≡ true → (mem i queue ≡ true) ⊎ All (λ j. mem j visited ≡ true) (deps i)

Searched-visit :
    (n : ℕ) (deps : ℕ → List ℕ) (curr : ℕ) (visited queue : List ℕ) {visited' queue' : List ℕ}
    → Searched deps visited (curr ∷ queue)
    → Visited n (deps curr) visited queue visited' queue'
    → Searched deps visited' queue'
Searched-visit n deps curr visited queue {visited' = visited'} h v i m = elim (v.new i m) [
  | inr q ↦ inl q
  | inl old ↦ elim (h i old) [
    | inr d ↦ inr (All-weaken v.keeps (deps i) d)
    | inl q ↦ elim (mem-cons i curr queue q) [
      | inl e ↦ inr (subst (λ k. All (λ j. mem j visited' ≡ true) (deps k)) (sym e) v.marked)
      | inr q' ↦ inl (v.queued i q')
    ]
  ]
]

-- A set of indexes that has all the dependencies of each.
abbrev pub Closed : (ℕ → List ℕ) → List ℕ → Type 0
Closed deps visited = (i : ℕ) → mem i visited ≡ true → All (λ j. mem j visited ≡ true) (deps i)

search_from-Closed :
    (n : ℕ) (deps : ℕ → List ℕ)
    → ((i : ℕ) → Below n (deps i))
    → (fuel : ℕ) (visited queue : List ℕ) → unvisited n visited + length queue < fuel
    → Searched deps visited queue
    → Closed deps (search_from deps fuel visited queue)
      × ((i : ℕ) → mem i visited ≡ true → mem i (search_from deps fuel visited queue) ≡ true)
unfolding search_from
search_from-Closed n deps hd zero visited queue enough h = absurd (omega arith)
search_from-Closed n deps hd (suc fuel) visited [] enough h = (
  λ i m. elim (h i m) [ inl q ↦ absurd (false≢true (sym (mem-nil i) ∙ q)) | inr d ↦ d ],
  λ i m. m,
)
search_from-Closed n deps hd (suc fuel) visited (curr ∷ queue) enough h =
    let v = visit-Visited n (deps curr) visited queue (hd curr) in
    let (closed, keeps) =
      search_from-Closed n deps hd fuel (visit (deps curr) visited queue).0
        (visit (deps curr) visited queue).1 (omega (arith, enough, v.rounds))
        (Searched-visit n deps curr visited queue h v) in
    (closed, λ i m. keeps i (v.keeps i m))

unvisited-bound : (n : ℕ) (visited : List ℕ) → unvisited n visited ≤ n
unvisited-bound n visited = count_below-bound n (λ i. not (mem i visited))

-- The search for what a producer depends on has rounds enough: it finds the least set that contains
-- the producer and, with each producer, all that it refers to.
pub producer_closure-Closed :
    (ops : Ops) (m : Producers) (i : ℕ)
    → Within (length ops) m
    → i < length ops
    → (mem i (producer_closure ops m i) ≡ true)
      × Closed (direct_deps ops m) (producer_closure ops m i)
      × ((set : List ℕ)
          → mem i set ≡ true
          → Closed (direct_deps ops m) set
          → All (λ j. mem j set ≡ true) (producer_closure ops m i))
unfolding producer_closure
producer_closure-Closed ops m i within lt =
    let n = length ops in
    let deps = direct_deps ops m in
    let (closed, keeps) =
      search_from-Closed n deps (λ j. direct_deps-Below ops n m j within) (n + 1) (i ∷ []) (i ∷ [])
        (omega (arith, unvisited-last n i [] lt (mem-nil i), unvisited-bound n []))
        (λ j h. inl h) in
    (
      keeps i (mem_self i []),
      closed,
      λ set h hs.
          search_from-All (λ j. mem j set ≡ true) deps hs (n + 1) (i ∷ []) (i ∷ []) (h, tt) (h, tt),
    )
