-- ===== src/Event/Refine.antt =====
-- event/AgvEventHelper.cpp: PushEvent, PopEvent and DeleteEvent on the queue.
use hxdl_driving_control.Prelude.{
  ℕ, ◌≤◌, ◌≡◌, refl, sym, ap, ◌∙◌, ◌⊎◌, inl, inr, List, [], ◌∷◌, ◌++◌, none, some, arith, All,
  All-append, All-without, append-nil, leb, ◌==◌, if◌then◌else◌, Bool-cases, List-cases,
}
use hxdl_driving_control.Prelude.Int.{pos}
use hxdl_driving_control.Event.{
  Event, EventHelper, EventList, push_event, pop_event, delete_event, delete_from,
}
use hxdl_driving_control.Event.Order.{
  rank, lane, IsQueued, Holds, Front, lane-append, lane-nil, lane-cons, lane-without, lane-Front,
  Pops, Front-Pops, lower,
}

module _ {D : Type 0} where
  lane-taken :
      (j k : ℕ) (queue : List (Event D)) (e : Event D) (rest : List (Event D))
      → (f : Front k queue e rest)
      → (if j == k then rest else lane j queue) ≡ lane j (f.before ++ f.after)
  lane-taken j k queue e rest f = elim (Bool-cases (j == k)) [
    | inl hit ↦
        let same : j ≡ k = ground arith in
        rw hit (sym (ap (λ i. lane i (f.before ++ f.after)) same ∙ lane-Front k queue e rest f))
    | inr miss ↦ rw miss (sym (lane-without j k queue e rest (λ q. ground arith) f))
  ]

  pop_lane-Pops :
      (k : ℕ) (queue : List (Event D)) (e : Event D) (rest : List (Event D)) (h' : EventHelper D)
      → lane k queue ≡ e ∷ rest
      → All IsQueued queue
      → All (λ x. rank x ≤ k) queue
      → h'.normal_list ≡ (if 0 == k then rest else lane 0 queue)
      → h'.important_list ≡ (if 1 == k then rest else lane 1 queue)
      → h'.urgent_list ≡ (if 2 == k then rest else lane 2 queue)
      → Pops queue e h'
  pop_lane-Pops k queue e rest h' eq ranked up l m u =
      let f = lane-cons k queue e rest eq in
      Front-Pops k queue e rest h' f up (record {
        lows = l ∙ lane-taken 0 k queue e rest f;
        mids = m ∙ lane-taken 1 k queue e rest f;
        highs = u ∙ lane-taken 2 k queue e rest f;
        ranked = All-without IsQueued f.before e f.after (rw f.parts at ranked);
      })

  no_rank : (queue : List (Event D)) → All (λ x. rank x ≤ 0) queue → lane 0 queue ≡ [] → queue ≡ []
  no_rank [] up z = refl
  no_rank (x ∷ queue) up z = absurd ((lane-nil 0 (x ∷ queue) z).0 (omega arith))

  -- Popping takes, from the queue in the order of arrival, the oldest of the events with the highest
  -- priority, and the helper goes on to hold the others; it returns nothing exactly when the queue is
  -- empty.
  pub pop_event-Pops :
      (h : EventHelper D) (queue : List (Event D))
      → Holds h queue
      → ((queue ≡ []) × (pop_event h ≡ (none, h)))
        ⊎ ((e : Event D) × (h' : EventHelper D) × (pop_event h ≡ (some e, h')) × Pops queue e h')
  unfolding pop_event
  pop_event-Pops h queue holds = elim (List-cases h.urgent_list) [
    | inr (e, rest, u) ↦ inr (
      e,
      record h { urgent_list = rest },
      ground (arith, u),
      pop_lane-Pops 2 queue e rest _ (sym holds.highs ∙ u) holds.ranked holds.ranked holds.lows
          holds.mids refl,
    )
    | inl u ↦
        let up = lower 1 queue holds.ranked (sym holds.highs ∙ u) in
        elim (List-cases h.important_list) [
          | inr (e, rest, m) ↦ inr (
            e,
            record h { important_list = rest },
            ground (arith, u, m),
            pop_lane-Pops 1 queue e rest _ (sym holds.mids ∙ m) holds.ranked up holds.lows refl
                holds.highs,
          )
          | inl m ↦
              let up' = lower 0 queue up (sym holds.mids ∙ m) in
              elim (List-cases h.normal_list) [
                | inr (e, rest, l) ↦ inr (
                  e,
                  record h { normal_list = rest },
                  ground (arith, u, m, l),
                  pop_lane-Pops 0 queue e rest _ (sym holds.lows ∙ l) holds.ranked up' refl
                      holds.mids holds.highs,
                )
                | inl l ↦ inl (no_rank queue up' (sym holds.lows ∙ l), ground (arith, u, m, l))
              ]
        ]
  ]

  lane-snoc :
      (k : ℕ) (queue : List (Event D)) (e : Event D)
      → lane k (queue ++ e ∷ []) ≡ (if rank e == k then lane k queue ++ e ∷ [] else lane k queue)
  unfolding lane
  lane-snoc k queue e = ground (arith, lane-append k queue (e ∷ []), append-nil (lane k queue))

  -- Pushing an event whose priority is not negative succeeds, cuts a priority that is too high to
  -- `Urgent`, and adds the event at the end of the queue.
  pub push_event-Holds :
      (h : EventHelper D) (queue : List (Event D)) (e : Event D) (n : ℕ)
      → Holds h queue
      → e.priority ≡ pos n
      → (h' : EventHelper D) × (push_event (some e) h ≡ some (pos 0, h'))
        × Holds h' (queue ++ record e { priority = if leb 3 n then pos 2 else pos n } ∷ [])
  unfolding push_event
  push_event-Holds h queue e n holds p =
      let e' : Event D = record e { priority = if leb 3 n then pos 2 else pos n } in
      let h' : EventHelper D = record h {
        normal_list = if rank e' == 0 then h.normal_list ++ e' ∷ [] else h.normal_list;
        important_list = if rank e' == 1 then h.important_list ++ e' ∷ [] else h.important_list;
        urgent_list = if rank e' == 2 then h.urgent_list ++ e' ∷ [] else h.urgent_list;
      } in
      (
        h',
        ground arith,
        record {
          lows = ground (arith, lane-snoc 0 queue e', holds.lows);
          mids = ground (arith, lane-snoc 1 queue e', holds.mids);
          highs = ground (arith, lane-snoc 2 queue e', holds.highs);
          ranked = All-append IsQueued queue (e' ∷ []) holds.ranked (ground arith);
        },
      )

  lane-delete_from :
      (k : ℕ) (queue : List (Event D)) (event : EventList)
      → delete_from event (lane k queue) ≡ lane k (delete_from event queue)
  unfolding lane delete_from
  lane-delete_from k [] event = refl
  lane-delete_from k (e ∷ queue) event = ground (arith, lane-delete_from k queue event)

  delete_from-ranked :
      (queue : List (Event D)) (event : EventList)
      → All IsQueued queue
      → All IsQueued (delete_from event queue)
  unfolding delete_from
  delete_from-ranked [] event h = tt
  delete_from-ranked (e ∷ queue) event h = ground (arith, delete_from-ranked queue event h.1)

  -- Deleting an event's number from the helper deletes it from the queue, wherever it stands.
  delete_event-Holds :
      (h : EventHelper D) (queue : List (Event D)) (event : EventList)
      → Holds h queue
      → Holds (delete_event event h) (delete_from event queue)
  unfolding delete_event
  delete_event-Holds h queue event holds = record {
    lows = ap (delete_from event) holds.lows ∙ lane-delete_from 0 queue event;
    mids = ap (delete_from event) holds.mids ∙ lane-delete_from 1 queue event;
    highs = ap (delete_from event) holds.highs ∙ lane-delete_from 2 queue event;
    ranked = delete_from-ranked queue event holds.ranked;
  }
