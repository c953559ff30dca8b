-- ===== src/SeqCst/Assertion.antt =====
-- The assertion at the end of `main`.
use concurrency_in_action.Common.{ℕ, ◌+◌, ◌≤◌, ◌≡◌, ◌≢◌, refl, true, List, [], ◌∷◌, arith}
use concurrency_in_action.SeqCst.{
  Reader, looping, added, skipped, Memory, initial, ThreadId, step, run, has_ended,
}

abbrev count : Reader → ℕ
count added = 1
count _ = 0

-- A reader that has left its loop has seen its flag; the readers cannot both have skipped.
record Inv (m : Memory) : Type 0 where
  seen_x : m.c ≢ looping → m.x ≡ true
  seen_y : m.d ≢ looping → m.y ≡ true
  not_both : m.c ≡ skipped → m.d ≡ skipped → ⊥
  counted : m.z ≡ count m.c + count m.d

step-Inv : (t : ThreadId) (m : Memory) → Inv m → Inv (step t m)
unfolding step
step-Inv ThreadId.a m i = ground arith
step-Inv ThreadId.b m i = ground arith
step-Inv ThreadId.c m i = ground arith
step-Inv ThreadId.d m i = ground arith

run-Inv : (ts : List ThreadId) (m : Memory) → Inv m → Inv (run ts m)
unfolding run
run-Inv [] m i = i
run-Inv (t ∷ ts) m i = run-Inv ts (step t m) (step-Inv t m i)

-- In every execution after which both readers have ended, the assertion of `main` holds: `z` is not
-- zero; and it is at most two.
pub ended-z_ne_zero :
    (ts : List ThreadId)
    → has_ended (run ts initial).c ≡ true
    → has_ended (run ts initial).d ≡ true
    → ((run ts initial).z ≢ 0) × ((run ts initial).z ≤ 2)
ended-z_ne_zero ts ec ed =
    let i = run-Inv ts initial (record {
      seen_x = λ h. absurd (h refl);
      seen_y = λ h. absurd (h refl);
      not_both = λ h. cc;
      counted = omega arith;
    }) in
    ground arith
