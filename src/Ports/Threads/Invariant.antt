-- ===== src/Ports/Threads/Invariant.antt =====
-- What holds while threads call `assign_next` of port_manager.h at the same time.
use p2p_ps_stun.Prelude.{
  ℕ, ◌+◌, ◌^◌, ◌≤◌, ◌<◌, ◌≡◌, ◌⊎◌, inl, inr, refl, sym, false, List, [], ◌∷◌, ◌++◌, total,
  total-middle, All, All-map, All-replace, All-entry, subst, arith,
}
use p2p_ps_stun.Ports.{u16, fetch_add_range}
use p2p_ps_stun.Ports.Threads.{
  Shared, Caller, asks, behind, tests, stores, retakes, has, takes, falls_behind, locks, finds_low,
  finds_high, resets, takes_again, Calls, Step, move,
}

-- What a thread's remaining calls of `fetch_add` add at most.
abbrev pub cost : ℕ → Caller → ℕ
cost range asks = range + range
cost range (has _) = 0
cost range _ = range

-- Nothing has wrapped around as long as all threads are here.
abbrev pub IsEarly : Caller → Type 0
IsEarly asks = Unit
IsEarly (has _) = Unit
IsEarly _ = ⊥

-- A port that was given, and one that will be.
abbrev pub IsGood : ℕ → ℕ → Caller → Type 0
IsGood min_port current (has port) = (min_port ≤ port) × (port < 2 ^ 16)
IsGood min_port current retakes = min_port ≤ current
IsGood _ _ _ = Unit

pub record Inv (range min_port bound : ℕ) (n : Calls range min_port) : Type 0 where
  pub fits : n.shared.current_port < 2 ^ 16
  pub good : All (IsGood min_port n.shared.current_port) n.callers
  pub spent : total (cost range) n.callers ≤ bound
  pub phase :
      (All IsEarly n.callers × (min_port ≤ n.shared.current_port))
      ⊎ (n.shared.current_port + total (cost range) n.callers ≤ min_port + bound)

-- Ports stay good when no thread relies on the shared port, or when it stays at least the smallest.
IsGood-frame :
    (m c c' : ℕ) (ts : List Caller)
    → All (IsGood m c) ts
    → All IsEarly ts ⊎ (m ≤ c → m ≤ c')
    → All (IsGood m c') ts
IsGood-frame m c c' ts g (inr f) = All-map (IsGood m c) (IsGood m c') (frame m c c' f) ts g
  where
    frame : (m c c' : ℕ) → (m ≤ c → m ≤ c') → (t : Caller) → IsGood m c t → IsGood m c' t
    frame m c c' f asks h = tt
    frame m c c' f behind h = tt
    frame m c c' f tests h = tt
    frame m c c' f stores h = tt
    frame m c c' f retakes h = f h
    frame m c c' f (has p) h = h
IsGood-frame m c c' [] g (inl e) = tt
IsGood-frame m c c' (asks ∷ ts) g (inl e) = (tt, IsGood-frame m c c' ts g.1 (inl e.1))
IsGood-frame m c c' (has p ∷ ts) g (inl e) = (g.0, IsGood-frame m c c' ts g.1 (inl e.1))
IsGood-frame m c c' (behind ∷ ts) g (inl e) = absurd e.0
IsGood-frame m c c' (tests ∷ ts) g (inl e) = absurd e.0
IsGood-frame m c c' (stores ∷ ts) g (inl e) = absurd e.0
IsGood-frame m c c' (retakes ∷ ts) g (inl e) = absurd e.0

module _ {range min_port bound : ℕ} (small : range < 2 ^ 16) (room : min_port + bound < 2 ^ 16)
    {n : Calls range min_port} (inv : Inv range min_port bound n) (before after : List Caller) where
  abbrev port : ℕ
  port = n.shared.current_port

  late :
      (t : Caller)
      → n.callers ≡ before ++ t ∷ after
      → (IsEarly t → ⊥)
      → port + total (cost range) n.callers ≤ min_port + bound
  late t e h = elim inv.phase [
    | inl k ↦ absurd (h (All-entry IsEarly before t after (subst (All IsEarly) e k.0)))
    | inr k ↦ k
  ]

  -- A step that leaves the shared port `s` and the thread at `t'`.
  moved :
      (t t' : Caller) (s : Shared)
      → n.callers ≡ before ++ t ∷ after
      → s.current_port < 2 ^ 16
      → IsGood min_port s.current_port t'
      → cost range t' ≤ cost range t
      → All IsEarly n.callers ⊎ (min_port ≤ port → min_port ≤ s.current_port)
      → (All IsEarly n.callers × (IsEarly t' × (min_port ≤ s.current_port)))
        ⊎ (s.current_port + total (cost range) n.callers + cost range t'
            ≤ min_port + bound + cost range t)
      → Inv range min_port bound (record { shared = s; callers = before ++ t' ∷ after })
  moved t t' s e fits good less keeps phase =
      let old : total (cost range) n.callers
          ≡ total (cost range) before + cost range t + total (cost range) after =
        rw e (total-middle (cost range) before t after) in
      let new = total-middle (cost range) before t' after in
      let kept = IsGood-frame min_port port s.current_port n.callers inv.good keeps in
      record {
        fits = fits;
        good =
            All-replace (IsGood min_port s.current_port) before t t' after
              (subst (All (IsGood min_port s.current_port)) e kept) good;
        spent = omega (arith, inv.spent, old, new);
        phase = elim phase [
          | inl k ↦
              inl (All-replace IsEarly before t t' after (subst (All IsEarly) e k.0) k.1.0, k.1.1)
          | inr k ↦ inr (omega (arith, old, new, k))
        ];
      }

  -- The cost of one thread is part of the whole.
  share :
      (t : Caller) → n.callers ≡ before ++ t ∷ after → cost range t ≤ total (cost range) n.callers
  share t e = rw e (omega (arith, total-middle (cost range) before t after))

  abbrev next : ℕ
  next = u16 (port + range)

  takes-Inv :
      n.callers ≡ before ++ asks ∷ after
      → min_port ≤ port
      → Inv range min_port bound (record {
        shared = record n.shared { current_port = next };
        callers = before ++ has port ∷ after;
      })
  takes-Inv e h =
      let s = record n.shared { current_port = next } in
      elim inv.phase [
        | inl k ↦
            let wraps : (min_port ≤ next) ⊎ (next < range) = ground (arith, small, inv.fits) in
            moved asks (has port) s e (omega arith) (h, inv.fits) (omega arith) (inl k.0)
              (elim wraps [
                | inl w ↦ inl (k.0, (tt, w))
                | inr w ↦ inr (omega (arith, w, inv.spent))
              ])
        | inr k ↦
            let plain : next ≡ port + range = omega (arith, k, share asks e, room) in
            moved asks (has port) s e (omega arith) (h, inv.fits) (omega arith)
              (inr λ _. omega (arith, plain, h)) (inr (omega (arith, plain, k)))
      ]

  falls_behind-Inv :
      n.callers ≡ before ++ asks ∷ after
      → port < min_port
      → Inv range min_port bound (record {
        shared = record n.shared { current_port = next };
        callers = before ++ behind ∷ after;
      })
  falls_behind-Inv e h =
      let k : port + total (cost range) n.callers ≤ min_port + bound = ground (arith, inv.phase) in
      let plain : next ≡ port + range = omega (arith, k, share asks e, room) in
      moved asks behind (record n.shared { current_port = next }) e (omega arith) tt (omega arith)
        (inr λ g. omega (arith, h, g)) (inr (omega (arith, plain, k)))

  -- A step that leaves the shared port.
  stays :
      (t t' : Caller) (s : Shared)
      → n.callers ≡ before ++ t ∷ after
      → s.current_port ≡ port
      → (IsEarly t → ⊥)
      → IsGood min_port port t'
      → cost range t' ≡ cost range t
      → Inv range min_port bound (record { shared = s; callers = before ++ t' ∷ after })
  stays t t' s e same not_early good equal =
      moved t t' s e (omega (arith, same, inv.fits))
        (subst (λ c. IsGood min_port c t') (sym same) good) (omega (arith, equal))
        (inr λ h. omega (arith, h, same)) (inr (omega (arith, same, equal, late t e not_early)))

  resets-Inv :
      n.callers ≡ before ++ stores ∷ after
      → Inv range min_port bound (record {
        shared = record n.shared { current_port = min_port };
        callers = before ++ retakes ∷ after;
      })
  resets-Inv e =
      moved stores retakes (record n.shared { current_port = min_port }) e (omega (arith, room))
        (omega arith) (omega arith) (inr λ _. omega arith) (inr (omega (arith, inv.spent)))

  takes_again-Inv :
      n.callers ≡ before ++ retakes ∷ after
      → Inv range min_port bound (record {
        shared = record { current_port = next; locked = false };
        callers = before ++ has port ∷ after;
      })
  takes_again-Inv e =
      let k = late retakes e (λ h. h) in
      let plain : next ≡ port + range = omega (arith, k, share retakes e, room) in
      let h : min_port ≤ port =
        All-entry (IsGood min_port port) before retakes after
          (subst (All (IsGood min_port port)) e inv.good) in
      moved retakes (has port) (record { current_port = next; locked = false }) e (omega arith)
        (h, inv.fits) (omega arith) (inr λ _. omega (arith, plain, h))
        (inr (omega (arith, plain, k)))

pub Step-Inv :
    {range min_port bound : ℕ} {n m : Calls range min_port}
    → range < 2 ^ 16
    → min_port + bound < 2 ^ 16
    → Inv range min_port bound n
    → Step range min_port n m
    → Inv range min_port bound m
unfolding fetch_add_range
Step-Inv small room inv (move before after e (takes h)) = takes-Inv small room inv before after e h
Step-Inv small room inv (move before after e (falls_behind h)) =
    falls_behind-Inv small room inv before after e h
Step-Inv small room inv (move before after e (locks h)) =
    stays small room inv before after behind tests _ e refl (λ x. x) tt refl
Step-Inv small room inv (move before after e (finds_low h)) =
    stays small room inv before after tests stores _ e refl (λ x. x) tt refl
Step-Inv small room inv (move before after e (finds_high h)) =
    stays small room inv before after tests retakes _ e refl (λ x. x) h refl
Step-Inv small room inv (move before after e resets) = resets-Inv small room inv before after e
Step-Inv small room inv (move before after e takes_again) =
    takes_again-Inv small room inv before after e
