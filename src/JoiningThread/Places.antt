-- ===== src/JoiningThread/Places.antt =====
-- With how many objects a thread is, and what an assignment to an object changes in that.
use native.Mathlib.Decide.{ℕ_discrete}
use concurrency_in_action.Common.{
  ℕ, zero, suc, ◌+◌, ◌<◌, ◌≤◌, ◌≡◌, refl, sym, ap, ◌∙◌, ◌==◌, if◌then◌else◌, Option, none, some,
  List, [], ◌∷◌, arith, update, update_self, update_ne,
}
use concurrency_in_action.JoiningThread.{State}

abbrev pub one : Option ℕ → ℕ → ℕ
one none x = 0
one (some y) x = if y == x then 1 else 0

-- How many of the first `n` objects own thread `x`.
abbrev pub owned : ℕ → (ℕ → Option ℕ) → ℕ → ℕ
owned zero f x = 0
owned (suc n) f x = one (f n) x + owned n f x

abbrev pub count : List ℕ → ℕ → ℕ
count [] x = 0
count (y ∷ ys) x = (if y == x then 1 else 0) + count ys x

abbrev pub placed : State → ℕ → ℕ
placed s x = owned s.objects s.owner x + count s.joined x + count s.detached x

pub owned-update_out :
    (n : ℕ) (f : ℕ → Option ℕ) (i : ℕ) (o : Option ℕ) (x : ℕ)
    → n ≤ i
    → owned n (update f i o) x ≡ owned n f x
owned-update_out zero f i o x h = refl
owned-update_out (suc n) f i o x h =
    rw (update_ne f i n o (omega arith), owned-update_out n f i o x (omega arith))

pub owned-update :
    (n : ℕ) (f : ℕ → Option ℕ) (i : ℕ) (o : Option ℕ) (x : ℕ)
    → i < n
    → owned n (update f i o) x + one (f i) x ≡ owned n f x + one o x
owned-update zero f i o x h = absurd (omega arith)
owned-update (suc n) f i o x h = elim (ℕ_discrete i n) [
  | yes same ↦
      let now =
        ap (λ m. one (update f i o m) x) (sym same) ∙ ap (λ t. one t x) (update_self f i o) in
      let before = ap (λ m. one (f m) x) same in
      omega (arith, owned-update_out n f i o x (omega arith), now, before)
  | no other ↦
      let kept = ap (λ t. one t x) (update_ne f i n o other) in
      omega (arith, owned-update n f i o x (omega arith), kept)
]

pub none_after : (f : ℕ → Option ℕ) (i j : ℕ) → f i ≡ none → update f j none i ≡ none
none_after f i j e = elim (ℕ_discrete j i) [
  | yes same ↦ ap (update f j none) (sym same) ∙ update_self f j none
  | no other ↦ update_ne f j i none other ∙ e
]

-- A thread that changes hands stays in one place.
module _ (s : State) (i : ℕ) (h : i < s.objects) where
  -- The thread of an object, if it has one, goes to the list `l`.
  pub let_go :
      (x id : ℕ)
      → s.owner i ≡ some id
      → owned s.objects (update s.owner i none) x + (if id == x then 1 else 0)
        ≡ owned s.objects s.owner x
  let_go x id e =
      let at = ap (λ t. one t x) e in omega (arith, owned-update s.objects s.owner i none x h, at)

  pub taken_over :
      (j x : ℕ)
      → j < s.objects
      → s.owner i ≡ none
      → owned s.objects (update (update s.owner j none) i (s.owner j)) x ≡ owned s.objects s.owner x
  taken_over j x h' e =
      let gone = ap (λ t. one t x) (none_after s.owner i j e) in
      omega (
        arith,
        owned-update s.objects (update s.owner j none) i (s.owner j) x h,
        owned-update s.objects s.owner j none x h',
        gone,
      )

  pub received :
      (x id : ℕ)
      → s.owner i ≡ none
      → owned s.objects (update s.owner i (some id)) x
        ≡ owned s.objects s.owner x + (if id == x then 1 else 0)
  received x id e =
      let at = ap (λ t. one t x) e in
      omega (arith, owned-update s.objects s.owner i (some id) x h, at)
