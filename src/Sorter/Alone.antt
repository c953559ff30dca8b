-- ===== src/Sorter/Alone.antt =====
-- A thread that sorts alone: `do_sort` returns what the sequential sort returns.
use concurrency_in_action.Common.{
  ℕ, zero, suc, ◌<◌, ◌≤◌, ◌≡◌, refl, ◌∙◌, Bool, none, some, List, [], ◌∷◌, arith, length, update,
  update_self, update_ne,
}
use concurrency_in_action.QuickSort.{Partition, join, sequential_quick_sort}
use concurrency_in_action.QuickSort.Laws.{parts-length}
use concurrency_in_action.Sorter.{
  Chunk, State, Outcome, returned, wait_for, push_chunk, and_then, do_sort, new_sorter,
  parallel_quick_sort,
}

-- The chunks of `s'` are `chunks`, and it has the promises of `s` as they were.
record Keeps {ℓ} (T : Type ℓ) (chunks : List (Chunk T)) (s s' : State T) : Type ℓ where
  same_chunks : s'.chunks ≡ chunks
  same_promises : (i : ℕ) → i < s.fresh → s'.promises i ≡ s.promises i
  grows : s.fresh ≤ s'.fresh

module _ {ℓ} {T : Type ℓ} where
  wait_for-ready :
      (k : ℕ) (sort : List T → State T → Outcome T (List T)) (promise : ℕ) (s : State T)
      (r : List T)
      → s.promises promise ≡ some r
      → wait_for (suc k) sort promise s ≡ returned r s
  unfolding wait_for
  wait_for-ready k sort promise s r e = rw (wait_for, e) refl

  -- The chunk on top is the one that is waited for: it is sorted in the first round.
  wait_for-top :
      (k : ℕ) (sort : List T → State T → Outcome T (List T)) (c : Chunk T) (rest : List (Chunk T))
      (s s' : State T) (r : List T)
      → s.chunks ≡ c ∷ rest
      → s.promises c.promise ≡ none
      → sort c.data_ (record s { chunks = rest }) ≡ returned r s'
      → wait_for (suc (suc k)) sort c.promise s
        ≡ returned r (record s' { promises = update s'.promises c.promise (some r) })
  unfolding wait_for
  wait_for-top k sort c rest s s' r top pending e =
      rw (wait_for, pending, top, e, and_then)
        (wait_for-ready k sort c.promise _ r (update_self s'.promises c.promise (some r)))

Keeps-set {ℓ} :
    {T : Type ℓ} (s : State T) (lower ls : List T) (s1 s2 : State T)
    → Keeps T (push_chunk lower s).chunks (push_chunk lower s) s1
    → Keeps T s.chunks (record s1 { chunks = s.chunks }) s2
    → Keeps T s.chunks s (record s2 { promises = update s2.promises s.fresh (some ls) })
Keeps-set s lower ls s1 s2 k1 k2 =
    let g1 = k1.grows in
    let g2 = k2.grows in
    record {
      same_chunks = k2.same_chunks;
      same_promises = λ i below.
          update_ne s2.promises s.fresh i (some ls) (omega arith)
          ∙ k2.same_promises i (omega arith)
          ∙ k1.same_promises i (omega arith)
          ∙ update_ne s.promises s.fresh i none (omega arith);
      grows = omega arith;
    }

module _ {ℓ} {T : Type ℓ} (less : T → T → Bool) (partition : Partition T) where
  open partition use {divide}

  -- What `do_sort` does to the state `s`.
  Alone : ℕ → List T → State T → Type ℓ
  Alone k input s =
      (r : List T) × (s' : State T) × (do_sort less partition k input s ≡ returned r s')
      × (sequential_quick_sort less partition k input ≡ some r)
      × Keeps T s.chunks s s'

  do_sort-Alone : (k : ℕ) (input : List T) (s : State T) → length input < k → Alone k input s
  unfolding Alone do_sort sequential_quick_sort
  do_sort-Alone zero input s h = absurd (omega arith)
  do_sort-Alone (suc k) [] s h = (
    [],
    s,
    refl,
    refl,
    record { same_chunks = refl; same_promises = λ i h. refl; grows = omega arith },
  )
  do_sort-Alone (suc zero) (x ∷ rest) s h = absurd (omega arith)
  do_sort-Alone (suc (suc k)) (x ∷ rest) s h =
      let size = parts-length less partition (λ val. less val x) rest in
      let (lower, chunk_data) = divide (λ val. less val x) rest in
      let (hs, s1, e1, q1, k1) =
        do_sort-Alone (suc k) chunk_data (push_chunk lower s) (omega arith) in
      let (ls, s2, e2, q2, k2) =
        do_sort-Alone (suc k) lower (record s1 { chunks = s.chunks }) (omega arith) in
      (
        join less partition x ls hs,
        record s2 { promises = update s2.promises s.fresh (some ls) },
        rw (e1, waited s lower s1 ls s2 e2 k1),
        rw (q2, q1),
        Keeps-set s lower ls s1 s2 k1 k2,
      )
    where
      waited :
          (s : State T) (lower : List T) (s1 : State T) (ls : List T) (s2 : State T)
          → do_sort less partition (suc k) lower (record s1 { chunks = s.chunks }) ≡ returned ls s2
          → Keeps T (push_chunk lower s).chunks (push_chunk lower s) s1
          → wait_for (suc (suc k)) (do_sort less partition (suc k)) s.fresh s1
            ≡ returned ls (record s2 { promises = update s2.promises s.fresh (some ls) })
      waited s lower s1 ls s2 e2 k1 =
          wait_for-top k (do_sort less partition (suc k))
            (record { data_ = lower; promise = s.fresh }) s.chunks s1 s2 ls k1.same_chunks
            (k1.same_promises s.fresh (omega arith) ∙ update_self s.promises s.fresh none) e2

-- The sorter of any thread that sorts alone: with more fuel than elements no `Pop` throws, every wait
-- ends, the result is what the sequential sort returns, and no chunk is left.
pub parallel_quick_sort-alone {ℓ} :
    {T : Type ℓ} (less : T → T → Bool) (partition : Partition T) (k : ℕ) (input : List T)
    → length input < k
    → (r : List T) × (s : State T) × (parallel_quick_sort less partition k input ≡ returned r s)
      × (sequential_quick_sort less partition k input ≡ some r)
      × (s.chunks ≡ [])
unfolding parallel_quick_sort sequential_quick_sort Alone
parallel_quick_sort-alone less partition zero input h = absurd (omega arith)
parallel_quick_sort-alone less partition (suc k) [] h = ([], new_sorter, refl, refl, refl)
parallel_quick_sort-alone less partition (suc k) (x ∷ input) h =
    let (r, s, e, q, keeps) = do_sort-Alone less partition (suc k) (x ∷ input) new_sorter h in
    (r, s, e, q, keeps.same_chunks)
