-- ===== src/ThreadSafeList/Threads.antt =====
-- A thread's moves that change no node: with its locks, with one less, with one more.
use mathlib.Core.Path.{subst}
use mathlib.Core.Option.{some-injective}
use concurrency_in_action.Common.{
  ℕ, ◌≡◌, ◌≢◌, ◌⊎◌, refl, sym, ap, ◌∙◌, inl, inr, Option, none, some, update,
}
use concurrency_in_action.Nodes.{Node}
use concurrency_in_action.ThreadSafeList.{
  Local, State, Outcome, went, blocked, fault, goes, unlock, lock_if,
}
use concurrency_in_action.ThreadSafeList.Shape.{IsThere}
use concurrency_in_action.ThreadSafeList.Invariant.{
  Placed, Holds, Inv, advance, taken_keeps, taken_only, taken_mine, given_keeps, given_only,
}

module _ {ℓ} {T : Type ℓ} where
  abbrev pub Keeps : Outcome T → Type ℓ
  Keeps (went s) = Inv s
  Keeps blocked = Unit
  Keeps fault = ⊥ × Unit {ℓ}

  pub held :
      (s : State T) (t : ℕ) (from : Local T)
      → Inv s
      → s.local t ≡ from
      → (a : ℕ) → s.locks a ≡ some t
      → Holds from a
  held s t from i at a h = subst (λ m. Holds m a) at (i.only a t h)

  -- Thread `t` moves on with the locks that it has.
  pub stays :
      (s : State T) (t : ℕ) (from l : Local T)
      → Inv s
      → s.local t ≡ from
      → Placed s.heap s.locks t l
      → ((a : ℕ) → Holds from a → Holds l a)
      → Inv (goes t l s)
  stays s t from l i at mine more =
      advance s (goes t l s) t l i refl i.shape
        (λ u ne. record {
          keeps_locks = λ a h. h;
          keeps_nodes = λ a h. refl;
          keeps_alone = λ b h alone. alone;
        })
        mine (λ a h. more a (held s t from i at a h)) (λ a u ne h. h)

  -- It gives back the lock of `b`.
  pub gives_back :
      (s : State T) (t b : ℕ) (from l : Local T)
      → Inv s
      → s.local t ≡ from
      → s.locks b ≡ some t
      → Placed s.heap (update s.locks b none) t l
      → ((a : ℕ) → b ≢ a → Holds from a → Holds l a)
      → Inv (goes t l (unlock b s))
  gives_back s t b from l i at locked mine more =
      advance s (goes t l (unlock b s)) t l i refl i.shape
        (λ u ne. record {
          keeps_locks = λ a h. given_keeps s.locks b t locked a u ne h;
          keeps_nodes = λ a h. refl;
          keeps_alone = λ c h alone. alone;
        })
        mine
        (λ a h. let (ne, h') = given_only s.locks b t a t h in more a ne (held s t from i at a h'))
        (λ a u ne h. (given_only s.locks b t a u h).1)

  -- It asks for the lock of `b`.
  pub lock_if-Keeps :
      (s : State T) (t b : ℕ) (from l : Local T) (n : Option (Node T)) (holder : Option ℕ)
      → Inv s
      → s.local t ≡ from
      → s.heap b ≡ n
      → s.locks b ≡ holder
      → IsThere s.heap b
      → (s.locks b ≡ none → Placed s.heap (update s.locks b (some t)) t l)
      → ((a : ℕ) → (a ≡ b) ⊎ Holds from a → Holds l a)
      → Keeps (lock_if n holder t b l s)
  lock_if-Keeps s t b from l none holder i at e f (m, e') mine more = absurd (cc)
  lock_if-Keeps s t b from l (some n) (some u) i at e f h mine more = tt
  lock_if-Keeps s t b from l (some n) none i at e f h mine more =
      advance s (goes t l (record s { locks = update s.locks b (some t) })) t l i refl i.shape
        (λ u ne. record {
          keeps_locks = λ a k. taken_keeps s.locks b t f a u k;
          keeps_nodes = λ a k. refl;
          keeps_alone = λ c k alone. alone;
        })
        (mine f)
        (λ a k. elim (taken_mine s.locks b t a k) [
          | inl same ↦ more a (inl same)
          | inr k' ↦ more a (inr (held s t from i at a k'))
        ])
        (λ a u ne k. taken_only s.locks b t a u ne k)

  -- Another thread has not locked a node that `t` has locked.
  pub not_mine :
      (s : State T) (t u b a : ℕ) → t ≢ u → s.locks b ≡ some t → s.locks a ≡ some u → b ≢ a
  not_mine s t u b a ne h k e = ne (some-injective t u (sym h ∙ ap s.locks e ∙ k))
