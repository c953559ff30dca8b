-- ===== src/HazardPointer/Owners.antt =====
-- No slot has two owners, and none stays taken.
use mathlib.Core.Path.{subst}
use mathlib.Core.Option.{some-injective}
use concurrency_in_action.Common.{
  ℕ, suc, ◌<◌, ◌≡◌, ◌≢◌, refl, sym, ap, ◌∙◌, Bool, true, false, ltb, inl, inr, Option, none, some,
  List, [], ◌∷◌, arith, Option-cases, update, update_self, update_ne, update_elim,
}
use concurrency_in_action.HazardPointer.{
  max_hazard_pointers, Pointer, Owner, no_owner, threw, constructing, owning, leaving, State,
  initial, goes, claim, claim_if, continue, start, store, destroy, Op, starts, continues, destroys,
  stores, step, run,
}

-- The slot that an owner has.
abbrev pub Has : Owner → ℕ → Type 0
Has no_owner i = ⊥
Has threw i = ⊥
Has (constructing j) i = ⊥
Has (owning j) i = i ≡ j
Has (leaving j) i = i ≡ j

abbrev pub IsLeaving : Owner → Type 0
IsLeaving (leaving j) = Unit
IsLeaving no_owner = ⊥
IsLeaving threw = ⊥
IsLeaving (constructing j) = ⊥
IsLeaving (owning j) = ⊥

-- A slot has a thread's id exactly while that thread's owner has the slot, which is in the table;
-- the pointer of a slot that nobody has, or that is being left, is null.
pub record Inv (s : State) : Type 0 where
  pub has_id : (t i : ℕ) → Has (s.owner t) i → (s.ids i ≡ some t) × (i < max_hazard_pointers)
  pub id_has : (t i : ℕ) → s.ids i ≡ some t → Has (s.owner t) i
  pub free_null : (i : ℕ) → s.ids i ≡ none → s.pointers i ≡ none
  pub leaving_null : (t i : ℕ) → IsLeaving (s.owner t) → Has (s.owner t) i → s.pointers i ≡ none

initial-Inv : Inv initial
initial-Inv = record {
  has_id = λ t i h. absurd h;
  id_has = λ t i e. absurd (cc);
  free_null = λ i e. refl;
  leaving_null = λ t i l h. absurd h;
}

-- Thread `t` goes to `o`, and the table to `ids` and `pointers`.
advance :
    (s : State) (ids : ℕ → Option ℕ) (pointers : ℕ → Pointer) (t : ℕ) (o : Owner)
    → Inv s
    → ((i : ℕ) → Has o i → (ids i ≡ some t) × (i < max_hazard_pointers))
    → ((i : ℕ) → ids i ≡ some t → Has o i)
    → ((u i : ℕ) → t ≢ u → s.ids i ≡ some u → ids i ≡ some u)
    → ((u i : ℕ) → t ≢ u → ids i ≡ some u → s.ids i ≡ some u)
    → ((i : ℕ) → ids i ≡ none → pointers i ≡ none)
    → ((i : ℕ) → IsLeaving o → Has o i → pointers i ≡ none)
    → ((u i : ℕ) → t ≢ u → s.ids i ≡ some u → pointers i ≡ s.pointers i)
    → Inv (record { ids = ids; pointers = pointers; owner = update s.owner t o })
advance s ids pointers t o v mine_id id_mine keeps only free mine_null same = record {
  has_id =
      update_elim (λ u o'. (i : ℕ) → Has o' i → (ids i ≡ some u) × (i < max_hazard_pointers))
        s.owner t o mine_id (λ u ne i h. (keeps u i ne (v.has_id u i h).0, (v.has_id u i h).1));
  id_has =
      update_elim (λ u o'. (i : ℕ) → ids i ≡ some u → Has o' i) s.owner t o id_mine
        (λ u ne i e. v.id_has u i (only u i ne e));
  free_null = free;
  leaving_null =
      update_elim (λ u o'. (i : ℕ) → IsLeaving o' → Has o' i → pointers i ≡ none) s.owner t o
        mine_null (λ u ne i l h. same u i ne (v.has_id u i h).0 ∙ v.leaving_null u i l h);
}

none-ne-some : (t : ℕ) → none ≢ some t
none-ne-some t e = cc

-- A thread that has no slot, before and after.
stays_without :
    (s : State) (t : ℕ) (o : Owner)
    → Inv s
    → ((i : ℕ) → Has (s.owner t) i → ⊥)
    → ((i : ℕ) → Has o i → ⊥)
    → Inv (goes t o s)
stays_without s t o v before after =
    advance s s.ids s.pointers t o v (λ i h. absurd (after i h))
      (λ i e. absurd (before i (v.id_has t i e))) (λ u i ne e. e) (λ u i ne e. e) v.free_null
      (λ i l h. absurd (after i h)) (λ u i ne e. refl)

claim-Inv :
    (s : State) (t i : ℕ) (id : Option ℕ)
    → Inv s
    → s.ids i ≡ id
    → s.owner t ≡ constructing i
    → i < max_hazard_pointers
    → Inv (claim id t i s)
claim-Inv s t i (some u) v e at lt =
    stays_without s t (constructing (suc i)) v (λ j h. subst (λ o. Has o j) at h) (λ j h. h)
claim-Inv s t i none v e at lt =
    advance s (update s.ids i (some t)) s.pointers t (owning i) v
      (λ j h. (ap (update s.ids i (some t)) h ∙ update_self s.ids i (some t), rw h lt))
      (update_elim (λ j id. id ≡ some t → j ≡ i) s.ids i (some t) (λ f. refl)
        (λ j ne f. absurd (subst (λ o. Has o j) at (v.id_has t j f))))
      (λ u j ne f.
        update_ne s.ids i j (some t) (λ same. none-ne-some u (sym e ∙ ap s.ids same ∙ f)) ∙ f)
      (λ u j ne.
        update_elim (λ k id. id ≡ some u → s.ids k ≡ some u) s.ids i (some t)
          (λ f. absurd (ne (some-injective t u f))) (λ k ne' f. f) j)
      (update_elim (λ j id. id ≡ none → s.pointers j ≡ none) s.ids i (some t) (λ f. absurd (cc))
        (λ j ne f. v.free_null j f))
      (λ j l h. absurd l) (λ u j ne f. refl)

claim_if-Inv :
    (s : State) (t i : ℕ) (b : Bool)
    → Inv s
    → ltb i max_hazard_pointers ≡ b
    → s.owner t ≡ constructing i
    → Inv (claim_if b t i s)
claim_if-Inv s t i false v e at =
    stays_without s t threw v (λ j h. subst (λ o. Has o j) at h) (λ j h. h)
claim_if-Inv s t i true v e at = claim-Inv s t i (s.ids i) v refl at (ltb-lt i e)
  where
    ltb-lt : (j : ℕ) → ltb j max_hazard_pointers ≡ true → j < max_hazard_pointers
    ltb-lt j h = ground arith

continue-Inv : (s : State) (t : ℕ) (o : Owner) → Inv s → s.owner t ≡ o → Inv (continue o t s)
unfolding continue
continue-Inv s t no_owner v at = v
continue-Inv s t threw v at = v
continue-Inv s t (constructing i) v at = claim_if-Inv s t i (ltb i max_hazard_pointers) v refl at
continue-Inv s t (owning i) v at = v
continue-Inv s t (leaving i) v at =
    let mine = v.has_id t i (subst (λ o. Has o i) (sym at) refl) in
    advance s (update s.ids i none) s.pointers t no_owner v (λ j h. absurd h)
      (update_elim (λ j id. id ≡ some t → ⊥) s.ids i none (λ f. none-ne-some t f)
        (λ j ne f. ne (sym (subst (λ o. Has o j) at (v.id_has t j f)))))
      (λ u j ne f.
        update_ne s.ids i j none (λ same. ne (some-injective t u (sym mine.0 ∙ ap s.ids same ∙ f)))
        ∙ f)
      (λ u j ne.
        update_elim (λ k id. id ≡ some u → s.ids k ≡ some u) s.ids i none
          (λ f. absurd (none-ne-some u f)) (λ k ne' f. f) j)
      (update_elim (λ j id. id ≡ none → s.pointers j ≡ none) s.ids i none
        (λ f. v.leaving_null t i (subst IsLeaving (sym at) tt) (subst (λ o. Has o i) (sym at) refl))
        (λ j ne f. v.free_null j f))
      (λ j l h. absurd h) (λ u j ne f. refl)

destroy-Inv : (s : State) (t : ℕ) (o : Owner) → Inv s → s.owner t ≡ o → Inv (destroy o t s)
destroy-Inv s t no_owner v at = v
destroy-Inv s t threw v at = v
destroy-Inv s t (constructing i) v at = v
destroy-Inv s t (leaving i) v at = v
destroy-Inv s t (owning i) v at =
    let mine = λ (j : ℕ) (h : j ≡ i). v.has_id t j (subst (λ o. Has o j) (sym at) h) in
    advance s s.ids (update s.pointers i none) t (leaving i) v mine
      (λ j f. subst (λ o. Has o j) at (v.id_has t j f)) (λ u j ne f. f) (λ u j ne f. f)
      (update_elim (λ j p. s.ids j ≡ none → p ≡ none) s.pointers i none (λ f. refl)
        (λ j ne f. v.free_null j f))
      (λ j l h. ap (update s.pointers i none) h ∙ update_self s.pointers i none)
      (λ u j ne f.
        update_ne s.pointers i j none
          (λ same. ne (some-injective t u (sym (mine i refl).0 ∙ ap s.ids same ∙ f))))

start-Inv : (s : State) (t : ℕ) (o : Owner) → Inv s → s.owner t ≡ o → Inv (start o t s)
start-Inv s t no_owner v at =
    stays_without s t (constructing 0) v (λ j h. subst (λ o. Has o j) at h) (λ j h. h)
start-Inv s t threw v at =
    stays_without s t (constructing 0) v (λ j h. subst (λ o. Has o j) at h) (λ j h. h)
start-Inv s t (constructing i) v at = v
start-Inv s t (owning i) v at = v
start-Inv s t (leaving i) v at = v

store-Inv :
    (s : State) (t : ℕ) (o : Owner) (p : Pointer) → Inv s → s.owner t ≡ o → Inv (store o p s)
store-Inv s t no_owner p v at = v
store-Inv s t threw p v at = v
store-Inv s t (constructing i) p v at = v
store-Inv s t (leaving i) p v at = v
store-Inv s t (owning i) p v at =
    let mine = v.has_id t i (subst (λ o. Has o i) (sym at) refl) in
    record {
      has_id = v.has_id;
      id_has = v.id_has;
      free_null =
          update_elim (λ j q. s.ids j ≡ none → q ≡ none) s.pointers i p
            (λ f. absurd (none-ne-some t (sym f ∙ mine.0))) (λ j ne f. v.free_null j f);
      leaving_null = λ u j l h.
          update_ne s.pointers i j p (λ same.
            let same_thread =
              some-injective t u (sym mine.0 ∙ ap s.ids same ∙ (v.has_id u j h).0) in
            subst IsLeaving (ap s.owner (sym same_thread) ∙ at) l)
          ∙ v.leaving_null u j l h;
    }

step-Inv : (o : Op) (s : State) → Inv s → Inv (step o s)
unfolding step
step-Inv (starts t) s v = start-Inv s t (s.owner t) v refl
step-Inv (continues t) s v = continue-Inv s t (s.owner t) v refl
step-Inv (destroys t) s v = destroy-Inv s t (s.owner t) v refl
step-Inv (stores t p) s v = store-Inv s t (s.owner t) p v refl

run-Inv_owners : (os : List Op) (s : State) → Inv s → Inv (run os s)
unfolding run
run-Inv_owners [] s v = v
run-Inv_owners (o ∷ os) s v = run-Inv_owners os (step o s) (step-Inv o s v)

unowned :
    (s : State) (i : ℕ)
    → Inv s
    → ((v : ℕ) → Has (s.owner v) i → ⊥)
    → (s.ids i ≡ none) × (s.pointers i ≡ none)
unowned s i v nobody = elim (Option-cases (s.ids i)) [
  | inl free ↦ (free, v.free_null i free)
  | inr (u, taken) ↦ absurd (nobody u (v.id_has u i taken))
]

-- Whatever the order in which the threads make, use and destroy their owners: if two threads have the
-- same slot, they are the same thread, and the slot is in the table and bears its id.
pub slots_owned :
    (os : List Op) (t u i : ℕ)
    → Has ((run os initial).owner t) i
    → Has ((run os initial).owner u) i
    → (t ≡ u) × ((run os initial).ids i ≡ some t) × (i < max_hazard_pointers)
slots_owned os t u i h k =
    let v = run-Inv_owners os initial initial-Inv in
    let (mine, lt) = v.has_id t i h in
    (some-injective t u (sym mine ∙ (v.has_id u i k).0), mine, lt)

-- In the same runs, a slot that no thread has is free to be claimed, and its pointer is null.
pub slots_freed :
    (os : List Op) (i : ℕ)
    → ((t : ℕ) → Has ((run os initial).owner t) i → ⊥)
    → ((run os initial).ids i ≡ none) × ((run os initial).pointers i ≡ none)
slots_freed os i nobody = unowned (run os initial) i (run-Inv_owners os initial initial-Inv) nobody
