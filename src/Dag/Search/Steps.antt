-- ===== src/Dag/Search/Steps.antt =====
-- One round of the search keeps the invariant, or returns a closed walk.
use mathlib.Core.WellFounded.{Acc}
use mathlib.Core.List.{reverse, reverse-cons}
use agentic_engineering_os.Prelude.{
  ℕ, suc, ◌+◌, ◌≡◌, inl, inr, refl, sym, ap, ◌∙◌, subst, some, none, List, [], ◌∷◌, ◌++◌, length,
  get_elem?, take, drop, All-Memᴰ, arith, length-reverse, drop_last-snoc, All-take-suc,
  get_elem?-lt, get_elem?-Memᴰ, take-length, list_eq, nat_eq,
}
use agentic_engineering_os.Prelude.Texts.{Text}
use agentic_engineering_os.Dag.Search.Walks.{At, IsClosedWalk, cycle-IsClosedWalk}
use agentic_engineering_os.Dag.Search.Invariant.{
  trail, Blacks, update_self, update_other, update_black, update_grey, update-cases, Blacks-mono,
  Stack, OnPath, OnPath-leave, OnPath-enter, Inv, Below-mono, Below-Linked, Below-Stack,
}
use agentic_engineering_os.Dag.Search.{white, grey, black, Frame, SearchState, update, popped}

module _ (adjacency : Text → List Text) (s : SearchState) (v : Text) (i : ℕ) (rest : List Frame)
    (top : s.frames ≡ (v, i) ∷ rest) (inv : Inv adjacency s) where
  pub top_frame : Stack adjacency s.colors ((v, i) ∷ rest)
  top_frame = subst (λ f. Stack adjacency s.colors f) top inv.stack

  pub top_shape : s.path ≡ reverse (v ∷ trail rest)
  top_shape = inv.shape ∙ ap (λ f. reverse (trail f)) top

  pub top_greys :
      (x : Text) → s.colors x ≡ grey → (n : ℕ) × (s.positions x ≡ some n) × At x n (v ∷ trail rest)
  top_greys x h =
      subst (λ f. (n : ℕ) × (s.positions x ≡ some n) × At x n (trail f)) top (inv.greys_at x h)

  pub top_OnPath : OnPath s.colors s.positions (v ∷ trail rest)
  top_OnPath = subst (λ f. OnPath s.colors s.positions (trail f)) top inv.on_path

  pub popped-Inv : i ≡ length (adjacency v) → Inv adjacency (popped s v rest)
  popped-Inv done =
      let (front, _, below) = top_frame in
      record {
        stack =
            Below-Stack adjacency (update s.colors v black) v rest (update_self s.colors v black)
              (Below-mono adjacency (update_black s.colors v) v rest below);
        shape =
            rw (top_shape, reverse-cons v (trail rest)) (drop_last-snoc (reverse (trail rest)) v);
        on_path =
            OnPath-leave s.colors s.positions v (length (trail rest)) (trail rest) top_OnPath.1
              (omega arith) top_OnPath.2;
        greys_at = λ x h. elim (update-cases s.colors v black x h) [
          | inl (_, e) ↦ cc
          | inr (other, old) ↦
              let (n, placed, at) = top_greys x old in
              (
                n,
                update_other s.positions v none x other ∙ placed,
                elim at [ inl (same, _) ↦ absurd (other same) | inr later ↦ later ],
              )
        ];
        blacks = λ x h. elim (update-cases s.colors v black x h) [
          | inl (same, _) ↦ rw same (
              Acc.intro v (λ w e.
                inv.blacks w
                  (All-Memᴰ (λ y. s.colors y ≡ black) (adjacency v) (all_black front) e)))
          | inr (_, old) ↦ inv.blacks x old
        ];
      }
    where
      all_black : Blacks s.colors (take i (adjacency v)) → Blacks s.colors (adjacency v)
      all_black front =
          subst (Blacks s.colors) (ap (λ k. take k (adjacency v)) done ∙ take-length (adjacency v))
            front

  module _ (d : Text) (read : get_elem? (adjacency v) i ≡ some d) where
    abbrev pub pushed : SearchState
    pushed = record {
      colors = update s.colors d grey;
      path = s.path ++ d ∷ [];
      positions = update s.positions d (some (length s.path));
      frames = (d, 0) ∷ (v, i + 1) ∷ rest;
    }

    pub pushed-Inv : s.colors d ≡ white → Inv adjacency pushed
    pushed-Inv fresh =
        let (front, _, below) = top_frame in
        let keep : (x : Text) → s.colors x ≡ black → update s.colors d grey x ≡ black =
          λ x h. update_grey s.colors d x fresh h in
        record {
          stack = (
            tt,
            omega arith,
            (
              (i, refl, read, Blacks-mono keep (take i (adjacency v)) front),
              Below-mono adjacency keep v rest below,
            ),
          );
          shape = rw (top_shape) (sym (reverse-cons d (v ∷ trail rest)));
          on_path = (
            update_self s.colors d grey,
            update_self s.positions d (some (length s.path))
                ∙ ap some (ap length top_shape ∙ length-reverse (v ∷ trail rest)),
            OnPath-enter s.colors s.positions d (length s.path) (v ∷ trail rest) fresh top_OnPath,
          );
          greys_at = λ x h. elim (update-cases s.colors d grey x h) [
            | inl (same, _) ↦ (
              length s.path,
              ap (update s.positions d (some (length s.path))) same
                  ∙ update_self s.positions d (some (length s.path)),
              inl (same, ap length top_shape ∙ length-reverse (v ∷ trail rest)),
            )
            | inr (other, old) ↦
                let (n, placed, at) = top_greys x old in
                (n, update_other s.positions d (some (length s.path)) x other ∙ placed, inr at)
          ];
          blacks = λ x h. elim (update-cases s.colors d grey x h) [
            | inl (_, e) ↦ cc
            | inr (_, old) ↦ inv.blacks x old
          ];
        }

    pub skipped-Inv : s.colors d ≡ black → Inv adjacency (record s { frames = (v, i + 1) ∷ rest })
    skipped-Inv done =
        let (front, _, below) = top_frame in
        record {
          stack = (
            subst (λ k. Blacks s.colors (take k (adjacency v))) {x = suc i} (omega arith)
                (All-take-suc (λ x. s.colors x ≡ black) (adjacency v) i read front done),
            omega (arith, get_elem?-lt (adjacency v) i read),
            below,
          );
          shape = top_shape;
          on_path = top_OnPath;
          greys_at = λ x h. top_greys x h;
          blacks = inv.blacks;
        }

    pub closed_walk : (n : ℕ) → At d n (v ∷ trail rest) → IsClosedWalk adjacency (drop n s.path)
    closed_walk n at =
        let (_, _, below) = top_frame in
        rw top_shape (
          cycle-IsClosedWalk adjacency (v ∷ trail rest) d n
            (get_elem?-Memᴰ (adjacency v) i read, Below-Linked adjacency s.colors v rest below) at)
