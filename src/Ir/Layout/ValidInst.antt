-- ===== src/Ir/Layout/ValidInst.antt =====
-- Linking an instruction into an EBB and out of it, on shapes.
use native.Mathlib.Decide.{ℕ_discrete}
use cretonne.Prelude.{
  ℕ, suc, ◌-◌, ◌≤◌, ◌≡◌, ◌≢◌, List, none, some, arith, ◌==◌, ltb, if◌then◌else◌, length, get_elem?,
}
use cretonne.Prelude.Splice.{insert_at, remove_at, get_elem?-insert_at, get_elem?-remove_at}
use cretonne.Ir.Layout.Links.{
  is, before, before_lem, insert_prev, insert_next, remove_prev, remove_next, Links-insert,
  Links-remove, Links-cong,
}
use cretonne.Ir.Layout.Shape.{Shape, update}
use cretonne.Ir.Layout.Valid.{IsLayout}

-- The instructions of the EBBs, changed at one EBB.
abbrev pub with_body : (ℕ → List ℕ) → ℕ → List ℕ → ℕ → List ℕ
with_body body e is x = if x == e then is else body x

with_body_self : (body : ℕ → List ℕ) (e : ℕ) (is : List ℕ) → with_body body e is e ≡ is
with_body_self body e is = ground arith

with_body_ne : (body : ℕ → List ℕ) (e x : ℕ) (is : List ℕ) → x ≢ e → with_body body e is x ≡ body x
with_body_ne body e x is n = ground arith

module _ (s t : Shape) (es : List ℕ) (body : ℕ → List ℕ) (j e k i : ℕ) (h : IsLayout s es body)
    (here : get_elem? es j ≡ some e) where
  -- An element of another EBB is no element of `e`.
  apart : (x a b c : ℕ) → x ≢ e → get_elem? (body x) a ≡ some c → get_elem? (body e) b ≢ some c
  apart x a b c n p q = ground (arith, h.owner x a c p, h.owner e b c q)

  fresh : s.ebb i ≡ none → (x a : ℕ) → get_elem? (body x) a ≢ some i
  fresh loose x a p = ground (arith, h.owner x a i p)

  pub IsLayout-insert_inst :
      k ≤ length (body e)
      → s.ebb i ≡ none
      → ((x : ℕ) → t.prev_inst x ≡ insert_prev (body e) k i s.prev_inst x)
      → ((x : ℕ) → t.next_inst x ≡ insert_next (body e) k i s.next_inst x)
      → ((x : ℕ) → t.ebb x ≡ update s.ebb i (some e) x)
      → ((x : ℕ)
          → t.first_inst x ≡ update s.first_inst e (if k == 0 then some i else s.first_inst e) x)
      → ((x : ℕ)
          → t.last_inst x
            ≡ update s.last_inst e (if k == length (body e) then some i else s.last_inst e) x)
      → t.prev ≡ s.prev
      → t.next ≡ s.next
      → t.first_ebb ≡ s.first_ebb
      → t.last_ebb ≡ s.last_ebb
      → IsLayout t es (with_body body e (insert_at (body e) k i))
  IsLayout-insert_inst within loose p n eb fi la ep en ef el = record {
    ebb_links = rw (ep, en, ef, el) h.ebb_links;
    inst_links = λ x. elim (ℕ_discrete x e) [
      | yes same ↦
          rw (same, with_body_self body e (insert_at (body e) k i))
            (Links-insert (body e) k i within (fresh loose e) (h.inst_links e) p n
              (ground (arith, fi e)) (ground (arith, la e)))
      | no differs ↦ rw (with_body_ne body e x (insert_at (body e) k i) differs) (
          Links-cong (h.inst_links x)
            (λ a c q. ground (arith, p c, fresh loose x a, apart x a k c differs q))
            (λ a c q.
              ground
                (arith, n c, fresh loose x a, apart x a (k - 1) c differs q, before_lem (body e) k))
            (ground (arith, fi x)) (ground (arith, la x)))
    ];
    owner = λ x a c q. ground (
      arith,
      eb c,
      fresh loose x a,
      get_elem?-insert_at (body e) k i a within,
      h.owner x a c,
      h.owner e a c,
      h.owner e (a - 1) c,
    );
    owned = λ c x q. elim (ℕ_discrete c i) [
      | yes same ↦ (k, ground (arith, eb c, get_elem?-insert_at (body e) k i k within))
      | no differs ↦
          let (a, at) = h.owned c x (ground (arith, eb c)) in
          let a' = if x == e then (if ltb a k then a else suc a) else a in
          (a', ground (arith, get_elem?-insert_at (body e) k i a' within))
    ];
    outside = λ x absent. ground (arith, absent j, h.outside x absent);
  }

  pub IsLayout-remove_inst :
      get_elem? (body e) k ≡ some i
      → ((x : ℕ) → t.prev_inst x ≡ remove_prev (body e) k i s.prev_inst x)
      → ((x : ℕ) → t.next_inst x ≡ remove_next (body e) k i s.next_inst x)
      → ((x : ℕ) → t.ebb x ≡ update s.ebb i none x)
      → ((x : ℕ)
          → t.first_inst x
            ≡ update s.first_inst e (if k == 0 then get_elem? (body e) 1 else s.first_inst e) x)
      → ((x : ℕ)
          → t.last_inst x
            ≡ update s.last_inst e
                (if suc k == length (body e) then before (body e) k else s.last_inst e)
                x)
      → t.prev ≡ s.prev
      → t.next ≡ s.next
      → t.first_ebb ≡ s.first_ebb
      → t.last_ebb ≡ s.last_ebb
      → IsLayout t es (with_body body e (remove_at (body e) k))
  IsLayout-remove_inst there p n eb fi la ep en ef el = record {
    ebb_links = rw (ep, en, ef, el) h.ebb_links;
    inst_links = λ x. elim (ℕ_discrete x e) [
      | yes same ↦
          rw (same, with_body_self body e (remove_at (body e) k))
            (Links-remove (body e) k i there (h.inst_links e) p n (ground (arith, fi e))
              (ground (arith, la e)))
      | no differs ↦ rw (with_body_ne body e x (remove_at (body e) k) differs) (
          Links-cong (h.inst_links x)
            (λ a c q.
              ground (arith, p c, apart x a k c differs q, apart x a (suc k) c differs q, there))
            (λ a c q. ground (
              arith,
              n c,
              apart x a k c differs q,
              apart x a (k - 1) c differs q,
              there,
              before_lem (body e) k,
            ))
            (ground (arith, fi x)) (ground (arith, la x)))
    ];
    owner = λ x a c q. ground (
      arith,
      eb c,
      get_elem?-remove_at (body e) k a,
      h.owner x a c,
      h.owner e a c,
      h.owner e (suc a) c,
      (h.inst_links e).distinct k a c,
      (h.inst_links e).distinct k (suc a) c,
      h.owner e k i there,
      apart x a k c,
      there,
    );
    owned = λ c x q.
        let (a, at) = h.owned c x (ground (arith, eb c)) in
        let a' = if x == e then (if ltb a k then a else a - 1) else a in
        (a', ground (arith, get_elem?-remove_at (body e) k a', there, eb c));
    outside = λ x absent. ground (arith, absent j, h.outside x absent);
  }
