-- ===== src/DnsCache/Order.antt =====
-- Calls that overlap are calls one after another.
use mathlib.Core.Path.{subst}
use concurrency_in_action.Common.{
  ℕ, ◌≡◌, refl, ap, sym, ◌∙◌, inl, inr, Bool, true, Bool-cases, if◌then◌else◌, Option, none, some,
  List, [], ◌∷◌, update, update_elim,
}
use concurrency_in_action.DnsCache.{
  Place, idle, assigned, finding, reading, found, updating, inserting, assigning, State, Op, finds,
  updates, continues, put, or_default, insert, lock_shared, lock, continue, start, step, new_cache,
}
use concurrency_in_action.DnsCache.Locks.{Has, mode, IsIn, Inv, step-Inv}

-- What a run shows: an entry that a call of `find_entry` returns, and an assignment of an update.
pub data Event {ℓ} (D V : Type ℓ) : Type ℓ where
  gave wrote : D → V → Event D V

module _ {ℓ} {D V : Type ℓ} (equal : D → D → Bool) (default_entry : V) where
  -- The entry that was written last for the domain, among the writes `h`, the last one first.
  unfoldable pub latest : List (D × V) → D → V
  latest [] d = default_entry
  latest ((k, v) ∷ h) d = if equal k d then v else latest h d

  -- Each `find_entry` returns the entry that was written last for its domain, or the default one.
  unfoldable pub Explained : List (Event D V) → List (D × V) → Type ℓ
  unfolding latest
  Explained [] h = Unit
  Explained (gave d v ∷ rest) h = (v ≡ latest h d) × Explained rest h
  Explained (wrote d v ∷ rest) h = Explained rest ((d, v) ∷ h)

  -- The event of the next step of a thread, if it has one: the end of `find_entry` with the entry that
  -- it returns, or an assignment.
  abbrev pub with_event : Place D V → List (Event D V) → List (Event D V)
  with_event idle es = es
  with_event (finding d) es = es
  with_event (reading d) es = es
  with_event (found d v) es = gave d v ∷ es
  with_event (updating d v) es = es
  with_event (inserting d v) es = es
  with_event (assigning d v) es = wrote d v ∷ es
  with_event assigned es = es

  abbrev pub with_event_of : Op D V → State D V → List (Event D V) → List (Event D V)
  with_event_of (finds t d) s es = es
  with_event_of (updates t d v) s es = es
  with_event_of (continues t) s es = with_event (s.places t) es

  unfoldable pub events : List (Op D V) → State D V → List (Event D V)
  unfolding step
  events [] s = []
  events (o ∷ os) s = with_event_of o s (events os (step equal default_entry o s))

  -- The writes behind the next step of a thread.
  abbrev writes_at : Place D V → List (D × V) → List (D × V)
  writes_at idle h = h
  writes_at (finding d) h = h
  writes_at (reading d) h = h
  writes_at (found d v) h = h
  writes_at (updating d v) h = h
  writes_at (inserting d v) h = h
  writes_at (assigning d v) h = (d, v) ∷ h
  writes_at assigned h = h

  -- The map shows the last writes.
  abbrev Shows : (D → Option V) → List (D × V) → Type ℓ
  Shows m h = (d : D) → or_default equal default_entry (m d) ≡ latest h d

  -- The entry that a thread has found is that of the last write.
  abbrev IsCurrent : List (D × V) → Place D V → Type ℓ
  IsCurrent h idle = Unit
  IsCurrent h (finding d) = Unit
  IsCurrent h (reading d) = Unit
  IsCurrent h (found d v) = (v ≡ latest h d) × Unit {ℓ}
  IsCurrent h (updating d v) = Unit
  IsCurrent h (inserting d v) = Unit
  IsCurrent h (assigning d v) = Unit
  IsCurrent h assigned = Unit

  record Follows (s : State D V) (h : List (D × V)) : Type ℓ where
    shows : Shows s.entries h
    current : (t : ℕ) → IsCurrent h (s.places t)

  put-Shows :
      (m : D → Option V) (h : List (D × V)) (d : D) (v : V)
      → Shows m h
      → Shows (put equal default_entry d v m) ((d, v) ∷ h)
  unfolding latest
  put-Shows m h d v shows k = elim (Bool-cases (equal d k)) [
    | inl e ↦ rw e refl
    | inr e ↦ rw e (shows k)
  ]

  -- An entry that is only inserted is the default one, as if there were none.
  insert-Shows :
      (m : D → Option V) (h : List (D × V)) (d : D) (o : Option V)
      → ((k : D) → equal d k ≡ true → m k ≡ o)
      → Shows m h
      → Shows (insert equal default_entry o d m) h
  insert-Shows m h d (some u) same shows k = shows k
  insert-Shows m h d none same shows k = elim (Bool-cases (equal d k)) [
    | inl e ↦ rw e (sym (ap (or_default equal default_entry) (same k e)) ∙ shows k)
    | inr e ↦ rw e (shows k)
  ]

  moved :
      (s : State D V) (h : List (D × V)) (t : ℕ) (p : Place D V) (readers : List ℕ)
      (writer : Option ℕ)
      → Follows s h
      → IsCurrent h p
      → Follows
          (record {
            entries = s.entries;
            readers = readers;
            writer = writer;
            places = update s.places t p;
          })
          h
  moved s h t p readers writer f here = record {
    shows = f.shows;
    current = update_elim (λ u q. IsCurrent h q) s.places t p here (λ u ne. f.current u);
  }

  lock_shared-Follows :
      (w : Option ℕ) (s : State D V) (h : List (D × V)) (t : ℕ) (d : D)
      → Follows s h
      → Follows (lock_shared equal default_entry w t d s) h
  lock_shared-Follows none s h t d f = moved s h t (reading d) _ _ f tt
  lock_shared-Follows (some u) s h t d f = f

  lock-Follows :
      (w : Option ℕ) (rs : List ℕ) (s : State D V) (h : List (D × V)) (t : ℕ) (d : D) (v : V)
      → Follows s h
      → Follows (lock equal default_entry w rs t d v s) h
  lock-Follows none [] s h t d v f = moved s h t (inserting d v) _ _ f tt
  lock-Follows none (r ∷ rs) s h t d v f = f
  lock-Follows (some u) rs s h t d v f = f

  -- While nobody has a shared lock, nobody has found an entry.
  unshared :
      (q : Place D V) (readers : List ℕ) (writer : Option ℕ) (u : ℕ) (h h' : List (D × V))
      → readers ≡ []
      → Has readers writer u (mode q)
      → IsCurrent h q
      → IsCurrent h' q
  unshared idle rs w u h h' e has c = tt
  unshared (finding d) rs w u h h' e has c = tt
  unshared (reading d) rs w u h h' e has c = tt
  unshared (found d v) rs w u h h' e (mine, free) c = absurd (subst (IsIn u) e mine)
  unshared (updating d v) rs w u h h' e has c = tt
  unshared (inserting d v) rs w u h h' e has c = tt
  unshared (assigning d v) rs w u h h' e has c = tt
  unshared assigned rs w u h h' e has c = tt

  module _ (equal_eq : (d k : D) → equal d k ≡ true → d ≡ k) where
    continue-Follows :
        (p : Place D V) (t : ℕ) (s : State D V) (h : List (D × V))
        → Has s.readers s.writer t (mode p)
        → Inv s
        → Follows s h
        → Follows (continue equal default_entry p t s) (writes_at p h)
    unfolding continue
    continue-Follows idle t s h has inv f = f
    continue-Follows (finding d) t s h has inv f = lock_shared-Follows s.writer s h t d f
    continue-Follows (reading d) t s h has inv f =
        moved s h t (found d (or_default equal default_entry (s.entries d))) _ _ f (f.shows d, tt)
    continue-Follows (found d v) t s h has inv f = moved s h t idle _ _ f tt
    continue-Follows (updating d v) t s h has inv f = lock-Follows s.writer s.readers s h t d v f
    continue-Follows (inserting d v) t s h has inv f = record {
      shows =
          insert-Shows s.entries h d (s.entries d) (λ k e. ap s.entries (sym (equal_eq d k e)))
            f.shows;
      current =
          update_elim (λ u q. IsCurrent h q) s.places t (assigning d v) tt (λ u ne. f.current u);
    }
    continue-Follows (assigning d v) t s h (mine, empty) inv f = record {
      shows = put-Shows s.entries h d v f.shows;
      current =
          update_elim (λ u q. IsCurrent ((d, v) ∷ h) q) s.places t assigned tt
            (λ u ne.
              unshared (s.places u) s.readers s.writer u h ((d, v) ∷ h) empty (inv u)
                (f.current u));
    }
    continue-Follows assigned t s h has inv f = moved s h t idle _ _ f tt

    start-Follows :
        (p q : Place D V) (t : ℕ) (s : State D V) (h : List (D × V))
        → IsCurrent h q
        → Follows s h
        → Follows (start equal default_entry p t q s) h
    start-Follows idle q t s h c f = moved s h t q _ _ f c
    start-Follows (finding d) q t s h c f = f
    start-Follows (reading d) q t s h c f = f
    start-Follows (found d v) q t s h c f = f
    start-Follows (updating d v) q t s h c f = f
    start-Follows (inserting d v) q t s h c f = f
    start-Follows (assigning d v) q t s h c f = f
    start-Follows assigned q t s h c f = f

    with_event-Explained :
        (p : Place D V) (es : List (Event D V)) (h : List (D × V))
        → IsCurrent h p
        → Explained es (writes_at p h)
        → Explained (with_event p es) h
    unfolding Explained
    with_event-Explained idle es h c e = e
    with_event-Explained (finding d) es h c e = e
    with_event-Explained (reading d) es h c e = e
    with_event-Explained (found d v) es h c e = (c.0, e)
    with_event-Explained (updating d v) es h c e = e
    with_event-Explained (inserting d v) es h c e = e
    with_event-Explained (assigning d v) es h c e = e
    with_event-Explained assigned es h c e = e

    events-Explained :
        (os : List (Op D V)) (s : State D V) (h : List (D × V))
        → Inv s
        → Follows s h
        → Explained (events os s) h
    unfolding events step Explained
    events-Explained [] s h inv f = tt
    events-Explained (finds t d ∷ os) s h inv f =
        events-Explained os _ h (step-Inv equal default_entry (finds t d) s inv)
          (start-Follows (s.places t) (finding d) t s h tt f)
    events-Explained (updates t d v ∷ os) s h inv f =
        events-Explained os _ h (step-Inv equal default_entry (updates t d v) s inv)
          (start-Follows (s.places t) (updating d v) t s h tt f)
    events-Explained (continues t ∷ os) s h inv f =
        with_event-Explained (s.places t) _ h (f.current t) (
          events-Explained os _ (writes_at (s.places t) h)
            (step-Inv equal default_entry (continues t) s inv)
            (continue-Follows (s.places t) t s h (inv t) inv f))

    -- Where `equal` holds of equal domains only: for every order of the steps of the threads on a new
    -- cache, each call of `find_entry` returns the entry that was assigned last for its domain before it
    -- returns, or the default entry if there was none; never one that an update has only inserted.
    pub new_cache-Explained :
        (os : List (Op D V)) → Explained (events os (new_cache equal default_entry)) []
    unfolding latest
    new_cache-Explained os =
        events-Explained os (new_cache equal default_entry) [] (λ t. tt)
          (record { shows = λ d. refl; current = λ t. tt })
