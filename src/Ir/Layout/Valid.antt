-- ===== src/Ir/Layout/Valid.antt =====
-- What a `Layout` stands for: a list of EBBs, and a list of instructions for each of them.
use native.Mathlib.Decide.{ℕ_discrete}
use cretonne.Prelude.{
  ℕ, suc, ◌-◌, ◌≤◌, ◌≡◌, ◌≢◌, List, [], some, arith, ◌==◌, ltb, if◌then◌else◌, length, get_elem?,
}
use cretonne.Prelude.Splice.{insert_at, remove_at, get_elem?-insert_at, get_elem?-remove_at}
use cretonne.Ir.Layout.Links.{
  Links, before, insert_prev, insert_next, remove_prev, remove_next, Links-insert, Links-remove,
}
use cretonne.Ir.Layout.Shape.{Shape}

-- Not an element.
abbrev pub Absent : ℕ → List ℕ → Type 0
Absent a xs = (k : ℕ) → get_elem? xs k ≢ some a

pub record IsLayout (s : Shape) (es : List ℕ) (body : ℕ → List ℕ) : Type 0 where
  pub ebb_links : Links s.prev s.next s.first_ebb s.last_ebb es
  pub inst_links : (e : ℕ) → Links s.prev_inst s.next_inst (s.first_inst e) (s.last_inst e) (body e)
  pub owner : (e k i : ℕ) → get_elem? (body e) k ≡ some i → s.ebb i ≡ some e
  pub owned : (i e : ℕ) → s.ebb i ≡ some e → (k : ℕ) × (get_elem? (body e) k ≡ some i)
  pub outside : (e : ℕ) → Absent e es → body e ≡ []

-- The new list holds what the old one held.
Absent-insert :
    (es : List ℕ) (k e x : ℕ) → Absent x (insert_at es k e) → k ≤ length es → Absent x es
Absent-insert es k e x h within j p =
    let i = if ltb j k then j else suc j in
    h i (ground (arith, get_elem?-insert_at es k e i within))

pub IsLayout-insert_ebb :
    (s t : Shape) (es : List ℕ) (body : ℕ → List ℕ) (k e : ℕ)
    → IsLayout s es body
    → k ≤ length es
    → Absent e es
    → ((x : ℕ) → t.prev x ≡ insert_prev es k e s.prev x)
    → ((x : ℕ) → t.next x ≡ insert_next es k e s.next x)
    → t.first_ebb ≡ (if k == 0 then some e else s.first_ebb)
    → t.last_ebb ≡ (if k == length es then some e else s.last_ebb)
    → t.first_inst ≡ s.first_inst
    → t.last_inst ≡ s.last_inst
    → t.ebb ≡ s.ebb
    → t.prev_inst ≡ s.prev_inst
    → t.next_inst ≡ s.next_inst
    → IsLayout t (insert_at es k e) body
IsLayout-insert_ebb s t es body k e h within fresh p n f l fi li eb pi ni = record {
  ebb_links = Links-insert es k e within fresh h.ebb_links p n f l;
  inst_links = λ x. rw (fi, li, pi, ni) (h.inst_links x);
  owner = λ x j i q. rw eb (h.owner x j i q);
  owned = λ i x q. h.owned i x (rw eb at q);
  outside = λ x absent. h.outside x (Absent-insert es k e x absent within);
}

pub IsLayout-remove_ebb :
    (s t : Shape) (es : List ℕ) (body : ℕ → List ℕ) (k e : ℕ)
    → IsLayout s es body
    → get_elem? es k ≡ some e
    → body e ≡ []
    → ((x : ℕ) → t.prev x ≡ remove_prev es k e s.prev x)
    → ((x : ℕ) → t.next x ≡ remove_next es k e s.next x)
    → t.first_ebb ≡ (if k == 0 then get_elem? es 1 else s.first_ebb)
    → t.last_ebb ≡ (if suc k == length es then before es k else s.last_ebb)
    → t.first_inst ≡ s.first_inst
    → t.last_inst ≡ s.last_inst
    → t.ebb ≡ s.ebb
    → t.prev_inst ≡ s.prev_inst
    → t.next_inst ≡ s.next_inst
    → IsLayout t (remove_at es k) body
IsLayout-remove_ebb s t es body k e h there empty p n f l fi li eb pi ni = record {
  ebb_links = Links-remove es k e there h.ebb_links p n f l;
  inst_links = λ x. rw (fi, li, pi, ni) (h.inst_links x);
  owner = λ x j i q. rw eb (h.owner x j i q);
  owned = λ i x q. h.owned i x (rw eb at q);
  outside = λ x absent. elim (ℕ_discrete x e) [
    | yes same ↦ rw same empty
    | no differs ↦ h.outside x λ j q.
        let i = if ltb j k then j else j - 1 in
        absent i (ground (arith, get_elem?-remove_at es k i, there))
  ];
}
