-- ===== src/Waves/Relaxations.antt =====
-- What a round does to the counters: each remaining story's counter falls to the number of its
-- dependencies that the layer leaves open, and the next frontier holds those at none.
use agentic_engineering_os.Prelude.{
  ℕ, suc, ◌+◌, ◌≡◌, ◌≢◌, ◌⊎◌, inl, inr, refl, sym, ap, ◌∙◌, subst, Bool-cases, true, List, [], ◌∷◌,
  ◌++◌, contains, contains_iff, Memᴰ, ◌==◌, ==_iff, ==_self, list_eq, nat_eq, arith, ℤ, pos, negsuc,
  decrement, int_eq,
}
use agentic_engineering_os.Prelude.Texts.{Text}
use agentic_engineering_os.Domain.{DagEdge}
use agentic_engineering_os.Dag.{update}
use agentic_engineering_os.Dag.Canonical.{NoRepeat}
use agentic_engineering_os.Waves.Rounds.{Relaxation, add, relax, relax_all, relax_layer, dependents}
use agentic_engineering_os.Waves.Counting.{all_dependents, occurrences}

pub add-Memᴰ : (x y : Text) (ids : List Text) → Memᴰ x (add y ids) → (x ≡ y) ⊎ Memᴰ x ids
unfolding add
add-Memᴰ x y ids m = elim (Bool-cases (contains y ids)) [
  | inl old ↦ inr (rw old at m)
  | inr new ↦ elim (rw new at m) [ Memᴰ.head e ↦ inl e | Memᴰ.tail k ↦ inr k ]
]

Memᴰ-add_self : (y : Text) (ids : List Text) → Memᴰ y (add y ids)
unfolding add
Memᴰ-add_self y ids = elim (Bool-cases (contains y ids)) [
  | inl old ↦ rw old ((contains_iff y ids).0 old)
  | inr new ↦ rw new (Memᴰ.head refl)
]

Memᴰ-add : {x : Text} (y : Text) (ids : List Text) → Memᴰ x ids → Memᴰ x (add y ids)
unfolding add
Memᴰ-add y ids m = elim (Bool-cases (contains y ids)) [
  | inl old ↦ rw old m
  | inr new ↦ rw new (Memᴰ.tail m)
]

NoRepeat-add : (y : Text) (ids : List Text) → NoRepeat ids → NoRepeat (add y ids)
unfolding add
NoRepeat-add y ids n = elim (Bool-cases (contains y ids)) [
  | inl old ↦ rw old n
  | inr new ↦ rw new (λ m. cc ((contains_iff y ids).1 m, new), n)
]

module _ (remaining : List Text) where
  -- The state of the counters when `left` is still to be relaxed and `target` is to be reached.
  pub record IsCounting (target : Text → ℕ) (left : List Text) (r : Relaxation) : Type 0 where
    pub counter :
        (d : Text) → Memᴰ d remaining → r.unresolved d ≡ pos (target d + occurrences d left)
    pub ready : (d : Text) → Memᴰ d r.next → Memᴰ d remaining × (r.unresolved d ≡ pos 0)
    pub reached : (d : Text) → Memᴰ d remaining → r.unresolved d ≡ pos 0 → Memᴰ d r.next
    pub distinct_next : NoRepeat r.next

  counter_step :
      (target : Text → ℕ) (d x : Text) (left : List Text) (value : ℤ)
      → value ≡ pos (target d + occurrences d (d ∷ left))
      → decrement value ≡ pos (target d + occurrences d left)
  counter_step target d x left value h =
      let same : (d == d) ≡ true = ==_self d in
      let sum : target d + occurrences d (d ∷ left) ≡ suc (target d + occurrences d left) =
        rw same (omega arith) in
      rw (h ∙ ap pos sum) refl

  occurrences_other :
      (d x : Text) (left : List Text) → d ≢ x → occurrences x (d ∷ left) ≡ occurrences x left
  occurrences_other d x left ne = elim (Bool-cases (d == x)) [
    | inl same ↦ absurd (ne ((==_iff d x).0 same))
    | inr other ↦ rw other (omega arith)
  ]

  counter_positive :
      (target n : ℕ) (d : Text) (left : List Text)
      → ◌≢◌ {A = ℤ} (pos (target + occurrences d (d ∷ left))) (pos 0)
  counter_positive target n d left h =
      let same : (d == d) ≡ true = ==_self d in absurd (omega (arith, ap value_of (rw same at h)))
    where
      value_of : ℤ → ℕ
      value_of (pos k) = k
      value_of (negsuc k) = k

  module _ (target : Text → ℕ) (d : Text) (left : List Text) (r : Relaxation)
      (i : IsCounting target (d ∷ left) r) where
    not_next : (x : Text) → Memᴰ x r.next → x ≢ d
    not_next x m e =
        let (inside, done) = i.ready x m in
        counter_positive (target d) 0 d left (
          sym (i.counter d (subst (λ z. Memᴰ z remaining) e inside))
          ∙ ap r.unresolved (sym e)
          ∙ done)

    kept : (x : Text) (value : ℤ) → x ≢ d → update r.unresolved d value x ≡ r.unresolved x
    unfolding update
    kept x value ne = elim (Bool-cases (x == d)) [
      | inl same ↦ absurd (ne ((==_iff x d).0 same))
      | inr other ↦ rw other refl
    ]

    written : (x : Text) (value : ℤ) → x ≡ d → update r.unresolved d value x ≡ value
    unfolding update
    written x value e = rw ((==_iff x d).1 e) refl

    lowered : Memᴰ d remaining → decrement (r.unresolved d) ≡ pos (target d + occurrences d left)
    lowered member = counter_step target d d left (r.unresolved d) (i.counter d member)

    next_counter :
        Memᴰ d remaining
        → (x : Text) → Memᴰ x remaining
        → update r.unresolved d (decrement (r.unresolved d)) x ≡ pos (target x + occurrences x left)
    next_counter member x m = elim (Bool-cases (x == d)) [
      | inl same ↦
          let e = (==_iff x d).0 same in
          written x _ e ∙ lowered member ∙ ap (λ z. pos (target z + occurrences z left)) (sym e)
      | inr other ↦
          let ne : x ≢ d = λ e. cc ((==_iff x d).1 e, other) in
          kept x _ ne
          ∙ i.counter x m
          ∙ ap (λ n. pos (target x + n)) (occurrences_other d x left (λ e. ne (sym e)))
    ]

    next_ready :
        Memᴰ d remaining
        → (x : Text) → (x ≡ d) × (decrement (r.unresolved d) ≡ pos 0) ⊎ Memᴰ x r.next
        → Memᴰ x remaining × (update r.unresolved d (decrement (r.unresolved d)) x ≡ pos 0)
    next_ready member x (inl (e, done)) =
        (subst (λ z. Memᴰ z remaining) (sym e) member, written x _ e ∙ done)
    next_ready member x (inr m) =
        let (inside, done) = i.ready x m in (inside, kept x _ (not_next x m) ∙ done)

    next_reached :
        Memᴰ d remaining
        → (x : Text) → Memᴰ x remaining
        → update r.unresolved d (decrement (r.unresolved d)) x ≡ pos 0
        → (x ≡ d) × (decrement (r.unresolved d) ≡ pos 0) ⊎ Memᴰ x r.next
    next_reached member x m done = elim (Bool-cases (x == d)) [
      | inl same ↦ let e = (==_iff x d).0 same in inl (e, sym (written x _ e) ∙ done)
      | inr other ↦
          let ne : x ≢ d = λ e. cc ((==_iff x d).1 e, other) in
          inr (i.reached x m (sym (kept x _ ne) ∙ done))
    ]

    relax-IsCounting : IsCounting target left (relax remaining r d)
    unfolding relax
    relax-IsCounting = elim (Bool-cases (contains d remaining)) [
      | inr outside ↦ rw outside (record {
        counter = λ x m.
            i.counter x m
            ∙ ap (λ n. pos (target x + n))
                (occurrences_other d x left (λ e. cc (
                  (contains_iff d remaining).1 (subst (λ z. Memᴰ z remaining) (sym e) m),
                  outside,
                )));
        ready = i.ready;
        reached = i.reached;
        distinct_next = i.distinct_next;
      })
      | inl inside ↦
          let member = (contains_iff d remaining).0 inside in
          elim (Bool-cases (decrement (r.unresolved d) == pos 0)) [
            | inl done ↦
                let none_left = (==_iff (decrement (r.unresolved d)) (pos 0)).0 done in
                rw (inside, done)
                  (record {
                    counter = next_counter member;
                    ready = λ x m. next_ready member x (elim (add-Memᴰ x d r.next m) [
                      | inl e ↦ inl (e, none_left)
                      | inr k ↦ inr k
                    ]);
                    reached = λ x m e. elim (next_reached member x m e) [
                      | inl (same, _) ↦ rw same (Memᴰ-add_self d r.next)
                      | inr k ↦ Memᴰ-add d r.next k
                    ];
                    distinct_next = NoRepeat-add d r.next i.distinct_next;
                  })
            | inr more ↦
                rw (inside, more)
                  (record {
                    counter = next_counter member;
                    ready = λ x m. next_ready member x (inr m);
                    reached = λ x m e. elim (next_reached member x m e) [
                      | inl (_, done) ↦
                          cc ((==_iff (decrement (r.unresolved d)) (pos 0)).1 done, more)
                      | inr k ↦ k
                    ];
                    distinct_next = i.distinct_next;
                  })
          ]
    ]

  pub relax_all-IsCounting :
      (target : Text → ℕ) (ids left : List Text) (r : Relaxation)
      → IsCounting target (ids ++ left) r
      → IsCounting target left (relax_all remaining r ids)
  unfolding relax_all
  relax_all-IsCounting target [] left r i = i
  relax_all-IsCounting target (d ∷ ids) left r i =
      relax_all-IsCounting target ids left (relax remaining r d)
        (relax-IsCounting target d (ids ++ left) r i)

  pub relax_layer-IsCounting :
      (edges : List DagEdge) (target : Text → ℕ) (layer : List Text) (r : Relaxation)
      → IsCounting target (all_dependents edges layer) r
      → IsCounting target [] (relax_layer edges remaining r layer)
  unfolding relax_layer
  relax_layer-IsCounting edges target [] r i = i
  relax_layer-IsCounting edges target (id ∷ rest) r i =
      relax_layer-IsCounting edges target rest (relax_all remaining r (dependents edges id))
        (relax_all-IsCounting target (dependents edges id) (all_dependents edges rest) r i)
