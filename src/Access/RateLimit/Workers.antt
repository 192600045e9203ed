-- ===== src/Access/RateLimit/Workers.antt =====
-- The rate limit of the service: each gunicorn worker (`--workers` in the Dockerfile) has a
-- dictionary of its own, and what a client may send is counted for each of them. The check of one
-- request is one step here: the threads of a worker do not interleave within it.
use calling_integration.Prelude.{
  ℕ, zero, suc, ◌+◌, ◌*◌, ◌≤◌, Bool, true, false, ◌&&◌, List, [], ◌∷◌, Text, ◌≡◌, refl, sym, ap,
  subst, inl, inr, count, ltb, ◌==◌, ==_iff, arith, Bool-cases, if◌then◌else◌, map, select,
}
use calling_integration.Access.RateLimit.{rate_limited, passed, passed-limited, IsOrdered, counts}

-- A request with the worker that gets it, its client and its time.
pub record Arrival : Type 0 where
  pub worker : ℕ
  pub request : Text × ℕ

-- The requests that pass: a request is checked by the dictionary of its worker only.
unfoldable pub handled : (Text → ℕ) → List Arrival → (ℕ → List (Text × List ℕ)) → List Arrival
unfolding rate_limited
handled limits [] times = []
handled limits (r ∷ arrivals) times =
    let key = r.request.0 in
    let outcome = rate_limited key (limits key) r.request.1 (times r.worker) in
    let rest = handled limits arrivals (λ v. if v == r.worker then outcome.1 else times v) in
    if outcome.0 then rest else r ∷ rest

-- The requests that one worker gets.
abbrev pub of_worker : ℕ → List Arrival → List (Text × ℕ)
of_worker w arrivals =
    map (λ (r : Arrival). r.request) (select (λ (r : Arrival). r.worker == w) arrivals)

handled-of_worker :
    (limits : Text → ℕ) (w : ℕ) (arrivals : List Arrival) (times : ℕ → List (Text × List ℕ))
    → of_worker w (handled limits arrivals times) ≡ passed limits (of_worker w arrivals) (times w)
unfolding handled passed
handled-of_worker limits w [] times = refl
handled-of_worker limits w (r ∷ arrivals) times =
    let key = r.request.0 in
    let outcome = rate_limited key (limits key) r.request.1 (times r.worker) in
    let after = λ (v : ℕ). if v == r.worker then outcome.1 else times v in
    let rest = handled-of_worker limits w arrivals after in
    elim (Bool-cases (r.worker == w)) [
      | inl own ↦
          let back : (w == r.worker) ≡ true = ground arith in
          let e = (==_iff w r.worker).0 back in
          let kept = rw back at rest in
          let here : of_worker w (handled limits arrivals after)
              ≡ passed limits (of_worker w arrivals)
                  (rate_limited key (limits key) r.request.1 (times w)).1 =
            subst
              (λ v.
                of_worker w (handled limits arrivals after)
                ≡ passed limits (of_worker w arrivals)
                    (rate_limited key (limits key) r.request.1 (times v)).1)
              (sym e) kept in
          elim (Bool-cases outcome.0) [
            | inl u ↦
                let u' : (rate_limited key (limits key) r.request.1 (times w)).0 ≡ true =
                  subst (λ v. (rate_limited key (limits key) r.request.1 (times v)).0 ≡ true)
                    (sym e) u in
                rw (own, u, u') here
            | inr u ↦
                let u' : (rate_limited key (limits key) r.request.1 (times w)).0 ≡ false =
                  subst (λ v. (rate_limited key (limits key) r.request.1 (times v)).0 ≡ false)
                    (sym e) u in
                rw (own, u, u') (rw own (ap (λ xs. r.request ∷ xs) here))
          ]
      | inr other ↦
          let back : (w == r.worker) ≡ false = ground arith in
          let kept = rw back at rest in
          elim (Bool-cases outcome.0) [
            | inl u ↦ rw (other, u) kept
            | inr u ↦ rw (other, u) (rw other kept)
          ]
    ]

-- The requests of a client in the window from `start`, of the first `workers` workers.
abbrev pub counts_of : ℕ → Text → ℕ → Arrival → Bool
counts_of workers client start r = ltb r.worker workers && counts client start r.request

counts_of-suc :
    (workers : ℕ) (client : Text) (start : ℕ) (arrivals : List Arrival)
    → count (counts_of (suc workers) client start) arrivals
      ≡ count (counts_of workers client start) arrivals
        + count (counts client start) (of_worker workers arrivals)
counts_of-suc workers client start [] = refl
counts_of-suc workers client start (r ∷ arrivals) =
    let rest = counts_of-suc workers client start arrivals in
    elim (Bool-cases (r.worker == workers)) [
      | inl own ↦
          let below : ltb r.worker (suc workers) ≡ true = ground arith in
          let above : ltb r.worker workers ≡ false = ground arith in
          rw (below, above, own) (ground arith)
      | inr other ↦ elim (Bool-cases (ltb r.worker workers)) [
        | inl u ↦
            let below : ltb r.worker (suc workers) ≡ true = ground arith in
            rw (below, u, other) (ground arith)
        | inr u ↦
            let above : ltb r.worker (suc workers) ≡ false = ground arith in
            rw (above, u, other) (ground arith)
      ]
    ]

IsOrdered-weaken :
    (first last : ℕ) (requests : List (Text × ℕ))
    → first ≤ last
    → IsOrdered last requests
    → IsOrdered first requests
IsOrdered-weaken first last [] p h = tt
IsOrdered-weaken first last (r ∷ requests) p h = let q = h.0 in (omega arith, h.1)

of_worker-IsOrdered :
    (w first : ℕ) (arrivals : List Arrival)
    → IsOrdered first (map (λ (r : Arrival). r.request) arrivals)
    → IsOrdered first (of_worker w arrivals)
of_worker-IsOrdered w first [] h = tt
of_worker-IsOrdered w first (r ∷ arrivals) h =
    let rest = of_worker-IsOrdered w r.request.1 arrivals h.1 in
    elim (Bool-cases (r.worker == w)) [
      | inl u ↦ rw u (h.0, rest)
      | inr u ↦ rw u (IsOrdered-weaken first r.request.1 (of_worker w arrivals) h.0 rest)
    ]

-- In every minute, from any start, at most as many requests of a client pass as its scope allows
-- times the workers, whatever requests come from this client and from others and whichever worker
-- gets each, if the clock does not go back.
pub handled-limited :
    (limits : Text → ℕ) (client : Text) (start first workers : ℕ) (arrivals : List Arrival)
    → IsOrdered first (map (λ (r : Arrival). r.request) arrivals)
    → count (counts_of workers client start) (handled limits arrivals (λ _. []))
      ≤ workers * limits client
handled-limited limits client start first zero arrivals h =
    rw (nothing (handled limits arrivals (λ _. []))) (omega arith)
  where
    nothing : (rs : List Arrival) → count (counts_of 0 client start) rs ≡ 0
    nothing [] = refl
    nothing (r ∷ rs) = let rest = nothing rs in ground arith
handled-limited limits client start first (suc workers) arrivals h =
    let fewer = handled-limited limits client start first workers arrivals h in
    let own =
      subst (λ xs. count (counts client start) xs ≤ limits client)
        (sym (handled-of_worker limits workers arrivals (λ _. [])))
        (passed-limited limits client start first (of_worker workers arrivals)
          (of_worker-IsOrdered workers first arrivals h)) in
    let sum = counts_of-suc workers client start (handled limits arrivals (λ _. [])) in ground arith
