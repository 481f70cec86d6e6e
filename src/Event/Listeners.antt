-- ===== src/Event/Listeners.antt =====
-- event/AgvEventHelper.cpp: RegisterListener, DeRegisterListener and ProcessEvents.
use hxdl_driving_control.Prelude.{
  ℕ, ◌≡◌, refl, List, [], ◌∷◌, ◌++◌, Bool, true, false, some, arith, ◌==◌, if◌then◌else◌,
  Bool-cases, inl, inr,
}
use hxdl_driving_control.Event.{
  Event, EventHelper, has_listener, register_listener, remove_listener, deregister_listener,
  process_events,
}

-- No listener is registered twice.
abbrev pub Distinct : List ℕ → Type 0
Distinct [] = Unit
Distinct (x ∷ xs) = (has_listener x xs ≡ false) × Distinct xs

has_listener-snoc :
    (l x : ℕ) (xs : List ℕ)
    → has_listener l (xs ++ x ∷ []) ≡ (if has_listener l xs then true else x == l)
unfolding has_listener
has_listener-snoc l x [] = ground arith
has_listener-snoc l x (y ∷ xs) = ground (arith, has_listener-snoc l x xs)

Distinct-snoc :
    (x : ℕ) (xs : List ℕ) → has_listener x xs ≡ false → Distinct xs → Distinct (xs ++ x ∷ [])
unfolding has_listener
Distinct-snoc x [] h d = (refl, tt)
Distinct-snoc x (y ∷ xs) h d = ground (arith, has_listener-snoc y x xs, Distinct-snoc x xs)

has_listener-remove :
    (l x : ℕ) (xs : List ℕ)
    → has_listener l (remove_listener x xs) ≡ (if x == l then false else has_listener l xs)
unfolding has_listener remove_listener
has_listener-remove l x [] = ground arith
has_listener-remove l x (y ∷ xs) = ground (arith, has_listener-remove l x xs)

Distinct-remove : (x : ℕ) (xs : List ℕ) → Distinct xs → Distinct (remove_listener x xs)
unfolding remove_listener
Distinct-remove x [] d = tt
Distinct-remove x (y ∷ xs) d = ground (arith, has_listener-remove y x xs, Distinct-remove x xs d.1)

module _ {D : Type 0} where
  -- Registering keeps the listeners distinct, and the new one is among them; those that were there
  -- stay.
  register_listener-Distinct :
      (h : EventHelper D) (l : ℕ)
      → Distinct h.listener_list
      → let h' = (register_listener (some l) h).1 in
        Distinct h'.listener_list
        × ((k : ℕ)
            → has_listener k h'.listener_list
              ≡ (if l == k then true else has_listener k h.listener_list))
  unfolding register_listener
  register_listener-Distinct h l d = (
    ground (arith, Distinct-snoc l h.listener_list),
    λ k. ground (arith, has_listener-snoc k l h.listener_list),
  )

  -- Deregistering keeps the listeners distinct and removes that one only.
  deregister_listener-Distinct :
      (h : EventHelper D) (l : ℕ)
      → Distinct h.listener_list
      → let h' = deregister_listener l h in
        Distinct h'.listener_list
        × ((k : ℕ)
            → has_listener k h'.listener_list
              ≡ (if l == k then false else has_listener k h.listener_list))
  unfolding deregister_listener
  deregister_listener-Distinct h l d =
      (Distinct-remove l h.listener_list d, λ k. has_listener-remove k l h.listener_list)

  -- A listener that handles an event in every state keeps it from those behind it.
  process_events-stops :
      {S : Type 0} (handle : ℕ → Event D → S → Bool × S) (xs : List ℕ) (l : ℕ) (ys : List ℕ)
      (e : Event D) (s : S)
      → ((s' : S) → (handle l e s').0 ≡ true)
      → process_events handle (xs ++ l ∷ ys) e s ≡ process_events handle (xs ++ l ∷ []) e s
  unfolding process_events
  process_events-stops handle [] l ys e s takes = rw (takes s)
  process_events-stops handle (x ∷ xs) l ys e s takes = elim (Bool-cases (handle x e s).0) [
    | inl took ↦ rw took
    | inr passed ↦ rw passed (process_events-stops handle xs l ys e (handle x e s).1 takes)
  ]
