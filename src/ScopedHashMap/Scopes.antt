-- ===== src/ScopedHashMap/Scopes.antt =====
-- The entries of the outer scopes, and the end of a scope.
use mathlib.Core.Path.{subst}
use cretonne.Prelude.{
  ℕ, zero, suc, ◌+◌, ◌-◌, ◌^◌, ◌≤◌, ◌<◌, ◌≡◌, ◌↔◌, refl, sym, ap, ◌∙◌, Bool, true, false, ltb, ◌==◌,
  some, List, [], ◌∷◌, length, if◌then◌else◌, arith, Option-cases, Bool-cases, inl, inr,
}
use cretonne.Prelude.Panic.{◌>>=◌}
use cretonne.ScopedHashMap.{
  Val, ScopedHashMap, increment_depth, lookup, remove, remove_scope, decrement_depth,
}
use cretonne.ScopedHashMap.Fill.{
  Chained-mono, same_key, first_key, Chained, nil, cons, IsValid, insert_all, with_entry,
  fill_vacant, fill_occupied, insert_all-IsValid,
}

module _ {K V : Type 0} (eq : K → K → Bool) (eq_iff : (a b : K) → (eq a b ≡ true) ↔ (a ≡ b)) where
  -- The entries that were inserted in an outer scope.
  abbrev pub outer : ℕ → List (K × Val K V) → List (K × Val K V)
  outer d [] = []
  outer d ((k, val) ∷ map) = if ltb val.depth d then (k, val) ∷ outer d map else outer d map

  outer_all :
      (d c : ℕ) (map : List (K × Val K V)) → c < d → Chained eq eq_iff c map → outer d map ≡ map
  outer_all d c _ lt (nil _) = refl
  outer_all d _ _ lt (cons c k val map next low absent rest) =
      ground (arith, outer_all d val.depth map (omega arith) rest)

  outer-Chained :
      (d c : ℕ) (map : List (K × Val K V))
      → c ≤ suc d
      → Chained eq eq_iff c map
      → Chained eq eq_iff d (outer (suc d) map)
  outer-Chained d _ _ le (nil _) = nil d
  outer-Chained d _ _ le (cons c k val map next low absent rest) =
      elim (Bool-cases (ltb val.depth (suc d))) [
        | inl out ↦
            let same = outer_all (suc d) val.depth map (ground arith) rest in
            rw (out, same) (cons d k val map next (ground arith) absent rest)
        | inr here ↦ rw here (outer-Chained d val.depth map (omega arith) rest)
      ]

  abbrev left : ℕ → List (K × Val K V) → ScopedHashMap K V
  left d map = record { map = map; last_insert = first_key eq eq_iff map; current_depth = d }

  valid-left : (m : ScopedHashMap K V) → IsValid eq eq_iff m → m ≡ left m.current_depth m.map
  valid-left m h = ap (λ l. record m { last_insert = l }) h.last

  -- The loop removes what the current scope inserted.
  remove_scope-outer :
      (fuel d : ℕ) (map : List (K × Val K V))
      → length map < fuel
      → Chained eq eq_iff d map
      → remove_scope eq fuel (left d map) ≡ some (left d (outer d map))
  unfolding remove_scope lookup remove
  remove_scope-outer zero d map lt h = absurd (omega arith)
  remove_scope-outer (suc fuel) d _ lt (nil _) = refl
  remove_scope-outer (suc fuel) d _ lt (cons _ k val map next low absent rest) =
      elim (Bool-cases (ltb val.depth d)) [
        | inl out ↦
            let same = outer_all d val.depth map (ground arith) rest in
            let test : (val.depth == d) ≡ false = ground arith in
            rw (remove_scope, lookup, same_key eq eq_iff k, test, out, same) refl
        | inr here ↦
            let e : val.depth ≡ d = ground arith in
            let test : (val.depth == d) ≡ true = ground arith in
            rw
              (
                remove_scope,
                lookup,
                same_key eq eq_iff k,
                test,
                remove,
                same_key eq eq_iff k,
                here,
                next,
              )
              (remove_scope-outer fuel d map (omega arith)
                (subst (λ z. Chained eq eq_iff z map) e rest))
      ]

  -- Inside a scope `decrement_depth` ends without a panic. The map has the entries of the outer scopes, and is
  -- valid again.
  pub decrement_depth-outer :
      (m : ScopedHashMap K V)
      → IsValid eq eq_iff m
      → 0 < m.current_depth
      → (m' : ScopedHashMap K V) × (decrement_depth eq m ≡ some m')
        × (m'.map ≡ outer m.current_depth m.map)
        × (m'.current_depth + 1 ≡ m.current_depth)
        × IsValid eq eq_iff m'
  unfolding decrement_depth
  decrement_depth-outer m h inside =
      let d = m.current_depth in
      let map' = outer d m.map in
      let runs : remove_scope eq (suc (length m.map)) m ≡ some (left d map') =
        ap (remove_scope eq (suc (length m.map))) (valid-left m h)
        ∙ remove_scope-outer (suc (length m.map)) d m.map (omega arith) h.chained in
      let test : ltb 0 d ≡ true = ground arith in
      let up : suc (d - 1) ≡ d = omega arith in
      let valid : Chained eq eq_iff (d - 1) map' =
        subst (λ z. Chained eq eq_iff (d - 1) (outer z m.map)) up
          (outer-Chained (d - 1) d m.map (omega arith) h.chained) in
      (
        left (d - 1) map',
        rw (runs, ◌>>=◌, test) refl,
        refl,
        omega arith,
        record { last = refl; chained = valid },
      )

  -- Insertions leave the entries of the outer scopes, and the depth, as they are.
  insert_all-outer :
      (kvs : List (K × V)) (m : ScopedHashMap K V) (d : ℕ)
      → m.current_depth ≡ d
      → (outer d (insert_all eq eq_iff kvs m).map ≡ outer d m.map)
        × ((insert_all eq eq_iff kvs m).current_depth ≡ d)
  insert_all-outer [] m d e = (refl, e)
  insert_all-outer ((k, v) ∷ kvs) m d e = elim (Option-cases (lookup eq m.map k)) [
    | inl absent ↦
        let (same, level) = insert_all-outer kvs (with_entry eq eq_iff m k v) d e in
        let test : ltb m.current_depth d ≡ false = ground arith in
        subst
          (λ z.
            (outer d (insert_all eq eq_iff kvs z).map ≡ outer d m.map)
            × ((insert_all eq eq_iff kvs z).current_depth ≡ d))
          (sym (fill_vacant eq eq_iff m k v absent)) (same ∙ rw test refl, level)
    | inr (val, there) ↦
        subst
          (λ z.
            (outer d (insert_all eq eq_iff kvs z).map ≡ outer d m.map)
            × ((insert_all eq eq_iff kvs z).current_depth ≡ d))
          (sym (fill_occupied eq eq_iff m k v val there)) (insert_all-outer kvs m d e)
  ]

  -- A scope leaves no trace: after `increment_depth`, any insertions and `decrement_depth` a valid map is what
  -- it was, if its depth plus 1 is a `usize`.
  pub decrement_depth-insert_all :
      (m : ScopedHashMap K V) (kvs : List (K × V))
      → IsValid eq eq_iff m
      → m.current_depth + 1 < 2 ^ 64
      → (increment_depth m >>= λ inner. decrement_depth eq (insert_all eq eq_iff kvs inner))
        ≡ some m
  unfolding increment_depth
  decrement_depth-insert_all m kvs h small =
      let d = m.current_depth + 1 in
      let inner : ScopedHashMap K V = record m { current_depth = d } in
      let test : ltb d (2 ^ 64) ≡ true = ground arith in
      let (same, level) = insert_all-outer kvs inner d refl in
      let valid = insert_all-IsValid eq eq_iff kvs inner record {
        last = h.last;
        chained = Chained-mono eq eq_iff m.current_depth d m.map (omega arith) h.chained;
      } in
      let (m', runs, entries, depth, valid') =
        decrement_depth-outer (insert_all eq eq_iff kvs inner) valid (omega arith) in
      let same' : m'.map ≡ m.map =
        entries
        ∙ ap (λ z. outer z (insert_all eq eq_iff kvs inner).map) level
        ∙ same
        ∙ outer_all d m.current_depth m.map (omega arith) h.chained in
      let depth' : m'.current_depth ≡ m.current_depth = omega arith in
      rw test (
        runs
        ∙ ap (λ z. some z)
            (valid-left m' valid'
              ∙ ap (λ z. left z m'.map) depth'
              ∙ ap (left m.current_depth) same'
              ∙ sym (valid-left m h)))
