-- ===== src/Event/Order.antt =====
-- event/AgvEventHelper.cpp: the three lists seen as one queue, the events in the order of arrival.
use hxdl_driving_control.Prelude.{
  ℕ, suc, All-both, All-append_left, ◌≤◌, ◌<◌, ◌≡◌, ◌≢◌, refl, ap, inl, inr, List, [], ◌∷◌, ◌++◌,
  arith, All, ◌==◌, if◌then◌else◌, Bool-cases,
}
use hxdl_driving_control.Prelude.Int.{pos_part}
use hxdl_driving_control.Event.{Event, EventHelper}

module _ {D : Type 0} where
  abbrev pub rank : Event D → ℕ
  rank e = pos_part e.priority

  -- The events of one priority, in order.
  unfoldable pub lane : ℕ → List (Event D) → List (Event D)
  lane k [] = []
  lane k (e ∷ queue) = let rest = lane k queue in if rank e == k then e ∷ rest else rest

  abbrev pub IsQueued : Event D → Type 0
  IsQueued e = rank e ≤ 2

  -- The helper holds the events of `queue`, which is in the order of arrival.
  pub record Holds (h : EventHelper D) (queue : List (Event D)) : Type 0 where
    pub lows : h.normal_list ≡ lane 0 queue
    pub mids : h.important_list ≡ lane 1 queue
    pub highs : h.urgent_list ≡ lane 2 queue
    pub ranked : All IsQueued queue

  pub lane-append : (k : ℕ) (xs ys : List (Event D)) → lane k (xs ++ ys) ≡ lane k xs ++ lane k ys
  unfolding lane
  lane-append k [] ys = refl
  lane-append k (x ∷ xs) ys = ground (arith, lane-append k xs ys)

  pub lane-nil : (k : ℕ) (queue : List (Event D)) → lane k queue ≡ [] → All (λ e. rank e ≢ k) queue
  unfolding lane
  lane-nil k [] h = tt
  lane-nil k (e ∷ queue) h = ground (arith, lane-nil k queue)

  -- Where the first event of a lane stands in the queue.
  pub record Front (k : ℕ) (queue : List (Event D)) (e : Event D) (rest : List (Event D))
      : Type 0 where
    pub before : List (Event D)
    pub after : List (Event D)
    pub parts : queue ≡ before ++ e ∷ after
    pub ranks : rank e ≡ k
    pub none_before : lane k before ≡ []
    pub left : lane k after ≡ rest

  pub lane-cons :
      (k : ℕ) (queue : List (Event D)) (e : Event D) (rest : List (Event D))
      → lane k queue ≡ e ∷ rest
      → Front k queue e rest
  unfolding lane
  lane-cons k [] e rest h = cc
  lane-cons k (x ∷ queue) e rest h = elim (Bool-cases (rank x == k)) [
    | inl hit ↦
        let same : x ≡ e = ground arith in
        record {
          before = [];
          after = queue;
          parts = ap (λ y. y ∷ queue) same;
          ranks = ground arith;
          none_before = refl;
          left = ground arith;
        }
    | inr miss ↦
        let f = lane-cons k queue e rest (ground arith) in
        record {
          before = x ∷ f.before;
          after = f.after;
          parts = ap (◌∷◌ x) f.parts;
          ranks = f.ranks;
          none_before = ground (arith, f.none_before);
          left = f.left;
        }
  ]

  pub lane-without :
      (j k : ℕ) (queue : List (Event D)) (e : Event D) (rest : List (Event D))
      → j ≢ k
      → (f : Front k queue e rest) → lane j (f.before ++ f.after) ≡ lane j queue
  unfolding lane
  lane-without j k queue e rest ne f = ground (
    arith,
    lane-append j f.before f.after,
    lane-append j f.before (e ∷ f.after),
    ap (lane j) f.parts,
  )

  pub lane-Front :
      (k : ℕ) (queue : List (Event D)) (e : Event D) (rest : List (Event D))
      (f : Front k queue e rest)
      → lane k (f.before ++ f.after) ≡ rest
  lane-Front k queue e rest f = rw (lane-append k f.before f.after, f.none_before, f.left)

  -- What a pop takes from the queue: the oldest of the events with the highest priority.
  pub record Pops (queue : List (Event D)) (e : Event D) (h' : EventHelper D) : Type 0 where
    pub before : List (Event D)
    pub after : List (Event D)
    pub parts : queue ≡ before ++ e ∷ after
    pub holds : Holds h' (before ++ after)
    pub highest : All (λ x. rank x ≤ rank e) queue
    pub oldest : All (λ x. rank x < rank e) before

  pub Front-Pops :
      (k : ℕ) (queue : List (Event D)) (e : Event D) (rest : List (Event D)) (h' : EventHelper D)
      → (f : Front k queue e rest) → All (λ x. rank x ≤ k) queue
      → Holds h' (f.before ++ f.after)
      → Pops queue e h'
  Front-Pops k queue e rest h' f up holds = record {
    before = f.before;
    after = f.after;
    parts = f.parts;
    holds = holds;
    highest = rw f.ranks up;
    oldest = rw f.ranks (
        All-both (λ x. rank x ≤ k) (λ x. rank x ≢ k) (λ x. rank x < k) f.before
          (λ x a b. omega arith)
          (All-append_left (λ x. rank x ≤ k) f.before (e ∷ f.after) (rw f.parts at up))
          (lane-nil k f.before f.none_before));
  }

  pub lower :
      (k : ℕ) (queue : List (Event D))
      → All (λ e. rank e ≤ suc k) queue
      → lane (suc k) queue ≡ []
      → All (λ e. rank e ≤ k) queue
  lower k queue up none_there =
      All-both (λ e. rank e ≤ suc k) (λ e. rank e ≢ suc k) (λ e. rank e ≤ k) queue
        (λ x a b. omega arith) up (lane-nil (suc k) queue none_there)
