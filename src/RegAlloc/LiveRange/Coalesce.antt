-- ===== src/RegAlloc/LiveRange/Coalesce.antt =====
-- The changes that `extend_in_ebb` makes to the entries: an entry moves up, an entry comes in, and
-- two entries join over a gap between EBBs.
use cretonne.Prelude.{
  ℕ, zero, suc, ◌≤◌, ◌<◌, ◌≡◌, ◌≢◌, refl, sym, ◌∙◌, Bool, true, false, ◌||◌, ◌==◌, ltb, none, some,
  List, [], ◌∷◌, get_elem?, set, if◌then◌else◌, arith, Option-cases, Bool-cases, inl, inr,
}
use mathlib.Core.Path.{subst}
use native.Mathlib.Decide.{ℕ_discrete, dec_lt}
use cretonne.Prelude.Swap.{get_elem?-set, get_elem?_lt}
use cretonne.Prelude.Splice.{remove_at, get_elem?-remove_at}
use cretonne.Ir.ProgPoint.{ExpandedProgramPoint}
use cretonne.RegAlloc.LiveRange.{ProgramOrder, Livein, ebb_seq, inst_seq, set_last, coalesce}
use cretonne.RegAlloc.LiveRange.Intervals.{within, covers, AreApart, covers-set, covers-remove_at}

-- What `ProgramOrder` promises of the EBBs and instructions that are laid out: the terminator before
-- a gap stands before the next EBB, and no program point between them. No instruction has the place
-- of an EBB.
pub record IsOrder (o : ProgramOrder) (Laid : ExpandedProgramPoint → Type 0) : Type 0 where
  pub gap :
      (i e : ℕ)
      → Laid (ExpandedProgramPoint.inst i)
      → Laid (ExpandedProgramPoint.ebb e)
      → o.is_ebb_gap i e ≡ true
      → inst_seq o i < ebb_seq o e
  pub nothing_between :
      (i e : ℕ) (pt : ExpandedProgramPoint)
      → Laid (ExpandedProgramPoint.inst i)
      → Laid (ExpandedProgramPoint.ebb e)
      → Laid pt
      → o.is_ebb_gap i e ≡ true
      → inst_seq o i < o.seq pt
      → ebb_seq o e ≤ o.seq pt
  pub distinct :
      (i e : ℕ)
      → Laid (ExpandedProgramPoint.inst i)
      → Laid (ExpandedProgramPoint.ebb e)
      → inst_seq o i ≢ ebb_seq o e

-- The entries after a change: apart, and they cover what they did and some more places.
pub record Grown (o : ProgramOrder) (Laid : ExpandedProgramPoint → Type 0) (xs : List Livein)
    (more : ℕ → Bool) (ys : List Livein) : Type 0 where
  pub are_apart : AreApart o Laid ys
  pub covered :
      (pt : ExpandedProgramPoint)
      → Laid pt
      → covers o ys (o.seq pt) ≡ (covers o xs (o.seq pt) || more (o.seq pt))

module _ (o : ProgramOrder) (Laid : ExpandedProgramPoint → Type 0) (order : IsOrder o Laid) where
  pub covers-elem :
      (xs : List Livein) (i : ℕ) (x : Livein) (s : ℕ)
      → get_elem? xs i ≡ some x
      → within o x s ≡ true
      → covers o xs s ≡ true
  unfolding covers
  covers-elem [] i x s here w = absurd (ground arith)
  covers-elem (z ∷ xs) zero x s here w =
      let e : z ≡ x = ground arith in let w' : within o z s ≡ true = rw e w in rw w' refl
  covers-elem (z ∷ xs) (suc i) x s here w =
      go (within o z s) (covers o xs s) (covers-elem xs i x s here w)
    where
      go : (a b : Bool) → b ≡ true → (a || b) ≡ true
      go a b e = ground arith

  module _ (xs : List Livein) (h : AreApart o Laid xs) (i : ℕ) (x : Livein)
      (here : get_elem? xs i ≡ some x) where
    abbrev pub moved : ℕ → Livein
    moved to = record x { last = to }

    -- The entry moves up to a place before the next entry.
    pub set_last-AreApart :
        (to : ℕ)
        → Laid (ExpandedProgramPoint.inst to)
        → ebb_seq o x.ebb < inst_seq o to
        → ((y : Livein) → get_elem? xs (suc i) ≡ some y → inst_seq o to < ebb_seq o y.ebb)
        → AreApart o Laid (set_last xs i x to)
    unfolding set_last
    set_last-AreApart to at_to low next =
        let reads =
          λ (j : ℕ). get_elem?-set xs i j (record x { last = to }) (get_elem?_lt xs i here) in
        record {
          laid = λ k y there. elim (ℕ_discrete k i) [
            | yes same ↦
                let e : record x { last = to } ≡ y = ground (arith, reads k) in
                rw (← e) ((h.laid i x here).0, at_to)
            | no other ↦ h.laid k y (ground (arith, reads k))
          ];
          runs = λ k y there. elim (ℕ_discrete k i) [
            | yes same ↦
                let e : record x { last = to } ≡ y = ground (arith, reads k) in rw (← e) low
            | no other ↦ h.runs k y (ground (arith, reads k))
          ];
          apart = λ k y z there after. elim (ℕ_discrete k i) [
            | yes same ↦
                let e : record x { last = to } ≡ y = ground (arith, reads k) in
                let after' : get_elem? xs (suc i) ≡ some z = ground (arith, reads (suc k)) in
                rw (← e) (next z after')
            | no other ↦
                let there' : get_elem? xs k ≡ some y = ground (arith, reads k) in
                elim (ℕ_discrete (suc k) i) [
                  | yes same ↦
                      let e : record x { last = to } ≡ z = ground (arith, reads (suc k)) in
                      let old = h.apart k y x there' (ground arith) in rw (← e) old
                  | no other' ↦ h.apart k y z there' (ground (arith, reads (suc k)))
                ]
          ];
        }

    pub covers-set_last :
        (to s : ℕ)
        → inst_seq o x.last ≤ inst_seq o to
        → covers o (set_last xs i x to) s ≡ (covers o xs s || within o (moved to) s)
    unfolding set_last
    covers-set_last to s le =
        covers-set o xs i x (record x { last = to }) s here (λ w. ground arith)

    -- The place of a program point, from one end of a gap to the other.
    gap_covered :
        (y : Livein) (pt : ExpandedProgramPoint)
        → Laid (ExpandedProgramPoint.ebb y.ebb)
        → Laid pt
        → o.is_ebb_gap x.last y.ebb ≡ true
        → ebb_seq o x.ebb < inst_seq o x.last
        → ebb_seq o y.ebb < inst_seq o y.last
        → within o (moved y.last) (o.seq pt) ≡ (within o x (o.seq pt) || within o y (o.seq pt))
    gap_covered y pt at_y at_pt gap run run' =
        let at_x = (h.laid i x here).1 in
        ground (
          arith,
          order.gap x.last y.ebb at_x at_y gap,
          order.nothing_between x.last y.ebb pt at_x at_y at_pt gap,
        )

    coalesce_stays : (to : ℕ) → get_elem? xs (suc i) ≡ none → coalesce o xs i x to ≡ xs
    unfolding coalesce
    coalesce_stays to e = rw (coalesce, e) refl

    coalesce_apart :
        (to : ℕ) (y : Livein)
        → get_elem? xs (suc i) ≡ some y
        → o.is_ebb_gap to y.ebb ≡ false
        → coalesce o xs i x to ≡ xs
    unfolding coalesce
    coalesce_apart to y e g = rw (coalesce, e, g) refl

    -- The list after the next entry joins.
    joined : Livein → List Livein
    joined y = set (remove_at xs (suc i)) i (moved y.last)

    coalesce_joins :
        (to : ℕ) (y : Livein)
        → get_elem? xs (suc i) ≡ some y
        → o.is_ebb_gap to y.ebb ≡ true
        → coalesce o xs i x to ≡ joined y
    unfolding coalesce set_last joined
    coalesce_joins to y e g = rw (coalesce, e, g) refl

    still_here : (y : Livein) → get_elem? (remove_at xs (suc i)) i ≡ some x
    still_here y = ground (arith, get_elem?-remove_at xs (suc i) i)

    joined_elem :
        (y : Livein) (k : ℕ)
        → get_elem? (joined y) k ≡ (
            if k == i
            then some (moved y.last)
            else if ltb k i
            then get_elem? xs k
            else get_elem? xs (suc k))
    unfolding joined
    joined_elem y k = ground (
      arith,
      get_elem?-set (remove_at xs (suc i)) i k (moved y.last)
          (get_elem?_lt (remove_at xs (suc i)) i (still_here y)),
      get_elem?-remove_at xs (suc i) k,
    )

    joined-AreApart : (y : Livein) → get_elem? xs (suc i) ≡ some y → AreApart o Laid (joined y)
    joined-AreApart y next = record {
      laid = λ k z there. elim (ℕ_discrete k i) [
        | yes same ↦
            let e : record x { last = y.last } ≡ z = ground (arith, joined_elem y k) in
            rw (← e) ((h.laid i x here).0, (h.laid (suc i) y next).1)
        | no other ↦ elim (dec_lt k i) [
          | yes low ↦ h.laid k z (ground (arith, joined_elem y k))
          | no high ↦ h.laid (suc k) z (ground (arith, joined_elem y k))
        ]
      ];
      runs = λ k z there. elim (ℕ_discrete k i) [
        | yes same ↦
            let e : record x { last = y.last } ≡ z = ground (arith, joined_elem y k) in
            rw (← e)
              (omega (arith, h.runs i x here, h.apart i x y here next, h.runs (suc i) y next))
        | no other ↦ ground (arith, joined_elem y k, h.runs k z, h.runs (suc k) z)
      ];
      apart = λ k z w there after. elim (ℕ_discrete k i) [
        | yes same ↦
            let e : record x { last = y.last } ≡ z = ground (arith, joined_elem y k) in
            let after' : get_elem? xs (suc (suc i)) ≡ some w =
              ground (arith, joined_elem y (suc k)) in
            rw (← e) (h.apart (suc i) y w next after')
        | no other ↦ elim (ℕ_discrete (suc k) i) [
          | yes same ↦
              let e : record x { last = y.last } ≡ w = ground (arith, joined_elem y (suc k)) in
              let there' : get_elem? xs k ≡ some z = ground (arith, joined_elem y k) in
              let old = h.apart k z x there' (ground arith) in rw (← e) old
          | no other' ↦
              ground
                (arith, joined_elem y k, joined_elem y (suc k), h.apart k z w, h.apart (suc k) z w)
        ]
      ];
    }

    covers-joined :
        (y : Livein) (pt : ExpandedProgramPoint)
        → Laid pt
        → get_elem? xs (suc i) ≡ some y
        → o.is_ebb_gap x.last y.ebb ≡ true
        → covers o (joined y) (o.seq pt) ≡ covers o xs (o.seq pt)
    unfolding joined
    covers-joined y pt at_pt next gap =
        let zs = remove_at xs (suc i) in
        let s = o.seq pt in
        let wide =
          gap_covered y pt (h.laid (suc i) y next).0 at_pt gap (h.runs i x here)
            (h.runs (suc i) y next) in
        let set' =
          covers-set o zs i x (moved y.last) s (still_here y)
            (λ w. wide ∙ or_left (within o x s) (within o y s) w) in
        let removed = covers-remove_at o xs (suc i) y s next in
        let inside = covers-elem zs i x s (still_here y) in
        either (within o x s) (within o y s) (within o (moved y.last) s) (covers o zs s)
          (covers o xs s) (covers o (set zs i (moved y.last)) s) wide set' removed inside
      where
        or_left : (a b : Bool) → a ≡ true → (a || b) ≡ true
        or_left a b e = ground arith

        either :
            (a b w z c d : Bool)
            → w ≡ (a || b)
            → d ≡ (z || w)
            → c ≡ (z || b)
            → (a ≡ true → z ≡ true)
            → d ≡ c
        either a b w z c d p q r s = ground arith

    -- The next entry joins, or nothing changes: the same program points are covered.
    pub coalesce-Grown : Grown o Laid xs (λ s. false) (coalesce o xs i x x.last)
    coalesce-Grown = elim (Option-cases (get_elem? xs (suc i))) [
      | inl end ↦ subst (Grown o Laid xs (λ s. false)) (sym (coalesce_stays x.last end)) unchanged
      | inr (y, next) ↦ elim (Bool-cases (o.is_ebb_gap x.last y.ebb)) [
        | inl gap ↦
            subst (Grown o Laid xs (λ s. false)) (sym (coalesce_joins x.last y next gap)) record {
              are_apart = joined-AreApart y next;
              covered =
                  λ pt at_pt. covers-joined y pt at_pt next gap ∙ or_false (covers o xs (o.seq pt));
            }
        | inr between ↦
            subst (Grown o Laid xs (λ s. false)) (sym (coalesce_apart x.last y next between))
              unchanged
      ]
    ]
      where
        or_false : (a : Bool) → a ≡ (a || false)
        or_false a = ground arith

        unchanged : Grown o Laid xs (λ s. false) xs
        unchanged = record {
          are_apart = h;
          covered = λ pt at_pt. or_false (covers o xs (o.seq pt));
        }
