-- ===== src/DnsCache.antt =====
-- chapter03/examples_ch03.cpp: `DnsCache`, for any number of threads. The domains `D`, with the test of
-- the keys of the map, and the entries `V`, with `DnsEntry{}`, are parameters. The map is the function
-- that it is; `operator[]` inserts a default entry before the assignment writes to it.
pub mod Locks
pub mod Order
mod Examples
use concurrency_in_action.Common.{
  ℕ, Bool, true, false, ◌==◌, if◌then◌else◌, Option, none, some, List, [], ◌∷◌, update,
}

-- Where a thread is: in no call; in `find_entry` before the shared lock, with it, and with the result;
-- in `update_or_add_entry` before the lock, with it, with the entry inserted, and with it assigned.
pub data Place {ℓ} (D V : Type ℓ) : Type ℓ where
  idle assigned : Place D V
  finding reading : D → Place D V
  found updating inserting assigning : D → V → Place D V

-- `readers` and `writer` are the owners of `entryMutex`.
pub record State {ℓ} (D V : Type ℓ) : Type ℓ where
  pub entries : D → Option V
  pub readers : List ℕ
  pub writer : Option ℕ
  pub places : ℕ → Place D V

pub data Op {ℓ} (D V : Type ℓ) : Type ℓ where
  finds : (t : ℕ) → D → Op D V
  updates : (t : ℕ) → D → V → Op D V
  continues : (t : ℕ) → Op D V

-- An owner of a shared lock lets it go.
abbrev pub release : ℕ → List ℕ → List ℕ
release t [] = []
release t (u ∷ us) = if t == u then us else u ∷ release t us

module _ {ℓ} {D V : Type ℓ} (equal : D → D → Bool) (default_entry : V) where
  abbrev pub goes : ℕ → Place D V → State D V → State D V
  goes t p s = record s { places = update s.places t p }

  abbrev pub put : D → V → (D → Option V) → D → Option V
  put d v entries k = if equal d k then some v else entries k

  -- `(it == entries.end()) ? DnsEntry{} : it->second`.
  abbrev pub or_default : Option V → V
  or_default none = default_entry
  or_default (some v) = v

  -- `entries[domain]`.
  abbrev pub insert : Option V → D → (D → Option V) → D → Option V
  insert none d entries = put d default_entry entries
  insert (some v) d entries = entries

  abbrev pub lock_shared : Option ℕ → ℕ → D → State D V → State D V
  lock_shared none t d s = goes t (reading d) (record s { readers = t ∷ s.readers })
  lock_shared (some u) t d s = s

  abbrev pub lock : Option ℕ → List ℕ → ℕ → D → V → State D V → State D V
  lock none [] t d v s = goes t (inserting d v) (record s { writer = some t })
  lock none (u ∷ us) t d v s = s
  lock (some u) us t d v s = s

  unfoldable pub continue : Place D V → ℕ → State D V → State D V
  continue idle t s = s
  continue (finding d) t s = lock_shared s.writer t d s
  continue (reading d) t s = goes t (found d (or_default (s.entries d))) s
  continue (found d v) t s = goes t idle (record s { readers = release t s.readers })
  continue (updating d v) t s = lock s.writer s.readers t d v s
  continue (inserting d v) t s =
      goes t (assigning d v) (record s { entries = insert (s.entries d) d s.entries })
  continue (assigning d v) t s = goes t assigned (record s { entries = put d v s.entries })
  continue assigned t s = goes t idle (record s { writer = none })

  -- A thread starts a call when it is in none.
  abbrev pub start : Place D V → (t : ℕ) → Place D V → State D V → State D V
  start idle t p s = goes t p s
  start (finding d) t p s = s
  start (reading d) t p s = s
  start (found d v) t p s = s
  start (updating d v) t p s = s
  start (inserting d v) t p s = s
  start (assigning d v) t p s = s
  start assigned t p s = s

  unfoldable pub step : Op D V → State D V → State D V
  unfolding continue
  step (finds t d) s = start (s.places t) t (finding d) s
  step (updates t d v) s = start (s.places t) t (updating d v) s
  step (continues t) s = continue (s.places t) t s

  -- The map of a new cache is empty.
  abbrev pub new_cache : State D V
  new_cache = record { entries = λ d. none; readers = []; writer = none; places = λ t. idle }
