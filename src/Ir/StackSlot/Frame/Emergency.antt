-- ===== src/Ir/StackSlot/Frame/Emergency.antt =====
-- How `get_emergency_slot` chooses a slot.
use mathlib.Core.Path.{subst}
use cretonne.Prelude.{
  ℕ, suc, ◌≤◌, ◌<◌, ◌≡◌, ◌≢◌, refl, sym, ◌∙◌, Bool, true, false, not, leb, Option, none, some, List,
  [], ◌∷◌, ◌++◌, length, get_elem?, set, arith, Option-cases, Bool-cases, inl, inr, ◌⊎◌,
  length-append, length-set,
}
use cretonne.Prelude.Swap.{get_elem?-set, get_elem?-append, get_elem?_lt, get_elem?_within}
use cretonne.Ir.Types.{ValueType}
use cretonne.Ir.StackSlot.{StackSlotData, StackSlotKind, spill_size}
use cretonne.Ir.StackSlot.Frame.{
  StackSlots, next_key, sized, in_list, filter, min_by_size, max_by_size, choose_emergency,
  get_emergency_slot,
}

data All (P : ℕ → ℕ → Type 0) : List (ℕ × ℕ) → Type 0 where
  nil : All P []
  cons : (ss n : ℕ) (rest : List (ℕ × ℕ)) → P ss n → All P rest → All P ((ss, n) ∷ rest)

-- The least, and the greatest, is the front slot or that of the others.
min_by_size_front :
    (ss n : ℕ) (rest : List (ℕ × ℕ))
    → (min_by_size ((ss, n) ∷ rest) ≡ some (ss, n))
      ⊎ (min_by_size ((ss, n) ∷ rest) ≡ min_by_size rest)
unfolding min_by_size
min_by_size_front ss n rest = elim (Option-cases (min_by_size rest)) [
  | inl m ↦ inl (rw m refl)
  | inr ((other, least), m) ↦ elim (Bool-cases (leb n least)) [
    | inl e ↦ inl (rw (m, e) refl)
    | inr e ↦ inr (rw (m, e) refl)
  ]
]

max_by_size_front :
    (ss n : ℕ) (rest : List (ℕ × ℕ))
    → (max_by_size ((ss, n) ∷ rest) ≡ some (ss, n))
      ⊎ (max_by_size ((ss, n) ∷ rest) ≡ max_by_size rest)
unfolding max_by_size
max_by_size_front ss n rest = elim (Option-cases (max_by_size rest)) [
  | inl m ↦ inl (rw m refl)
  | inr ((other, most), m) ↦ elim (Bool-cases (leb n most)) [
    | inl e ↦ inr (rw (m, e) refl)
    | inr e ↦ inl (rw (m, e) refl)
  ]
]

module _ (P : ℕ → ℕ → Type 0) where
  filter-All :
      (p : ℕ × ℕ → Bool) (xs : List (ℕ × ℕ))
      → All P xs
      → All (λ ss n. P ss n × (p (ss, n) ≡ true)) (filter p xs)
  unfolding filter
  filter-All p _ nil = nil
  filter-All p _ (cons ss n rest h hs) = elim (Bool-cases (p (ss, n))) [
    | inl e ↦ rw (filter, e) (cons ss n _ (h, e) (filter-All p rest hs))
    | inr e ↦ rw (filter, e) (filter-All p rest hs)
  ]

  at_pair : (p q : ℕ × ℕ) → some p ≡ some q → P p.0 p.1 → P q.0 q.1
  at_pair p q e h = let e' : p ≡ q = ground arith in subst (λ z. P z.0 z.1) e' h

  min_by_size-All :
      (xs : List (ℕ × ℕ)) (ss n : ℕ) → All P xs → min_by_size xs ≡ some (ss, n) → P ss n
  unfolding min_by_size
  min_by_size-All _ ss n nil e = absurd (ground arith)
  min_by_size-All _ ss n (cons ss' n' rest h hs) e = elim (min_by_size_front ss' n' rest) [
    | inl own ↦ at_pair (ss', n') (ss, n) (sym own ∙ e) h
    | inr others ↦ min_by_size-All rest ss n hs (sym others ∙ e)
  ]

  max_by_size-All :
      (xs : List (ℕ × ℕ)) (ss n : ℕ) → All P xs → max_by_size xs ≡ some (ss, n) → P ss n
  unfolding max_by_size
  max_by_size-All _ ss n nil e = absurd (ground arith)
  max_by_size-All _ ss n (cons ss' n' rest h hs) e = elim (max_by_size_front ss' n' rest) [
    | inl own ↦ at_pair (ss', n') (ss, n) (sym own ∙ e) h
    | inr others ↦ max_by_size-All rest ss n hs (sym others ∙ e)
  ]

  -- A filter that leaves nothing.
  All-out :
      (p : ℕ × ℕ → Bool) (xs : List (ℕ × ℕ))
      → All P xs
      → filter p xs ≡ []
      → All (λ ss n. P ss n × (p (ss, n) ≡ false)) xs
  unfolding filter
  All-out p _ nil e = nil
  All-out p _ (cons ss n rest h hs) e = elim (Bool-cases (p (ss, n))) [
    | inl here ↦ absurd (ground arith)
    | inr out ↦ cons ss n rest (h, out) (All-out p rest hs (ground arith))
  ]

min_by_size-none : (xs : List (ℕ × ℕ)) → min_by_size xs ≡ none → xs ≡ []
unfolding min_by_size
min_by_size-none [] e = refl
min_by_size-none ((ss, n) ∷ xs) e = elim (Option-cases (min_by_size xs)) [
  | inl m ↦ absurd (ground arith)
  | inr ((other, least), m) ↦ absurd (ground arith)
]

abbrev Registered : List StackSlotData → ℕ → ℕ → Type 0
Registered slots ss n = (s : StackSlotData) × (get_elem? slots ss ≡ some s) × (s.size ≡ n)

-- Emergency slots exist.
abbrev pub Listed : StackSlots → Type 0
Listed f = (i ss : ℕ) → get_elem? f.emergency i ≡ some ss → ss < length f.slots

sized-All :
    (slots : List StackSlotData) (ems : List ℕ)
    → ((i ss : ℕ) → get_elem? ems i ≡ some ss → ss < length slots)
    → (l : List (ℕ × ℕ)) × (sized slots ems ≡ some l) × All (Registered slots) l
unfolding sized
sized-All slots [] listed = ([], refl, nil)
sized-All slots (ss ∷ ems) listed =
    let (l, e, all) = sized-All slots ems (λ i. listed (suc i)) in
    let (s, at) = get_elem?_within slots ss (listed 0 ss refl) in
    ((ss, s.size) ∷ l, rw (at, e) refl, cons ss s.size l (s, at, refl) all)

-- A slot for `size` bytes that is not in use. A slot that was there does not shrink, and the others stay.
pub record Given (f : StackSlots) (size : ℕ) (in_use : List (Option ℕ))
    (o : Option (ℕ × StackSlots)) : Type 0 where
  pub ss : ℕ
  pub after : StackSlots
  pub runs : o ≡ some (ss, after)
  pub slot : StackSlotData
  pub there : get_elem? after.slots ss ≡ some slot
  pub large : size ≤ slot.size
  pub unused : in_list in_use ss ≡ false
  pub kept :
      (i : ℕ) (s : StackSlotData)
      → i ≢ ss
      → get_elem? f.slots i ≡ some s
      → get_elem? after.slots i ≡ some s
  pub grows : (s : StackSlotData) → get_elem? f.slots ss ≡ some s → s.size ≤ slot.size
  pub listed : Listed after

module _ (f : StackSlots) (size : ℕ) (in_use : List (Option ℕ)) (listed : Listed f)
    (existing : (ss : ℕ) → in_list in_use ss ≡ true → ss < length f.slots) where
  abbrev Free : ℕ → ℕ → Type 0
  Free ss n = Registered f.slots ss n × (not (in_list in_use ss) ≡ true)

  -- A slot that is large enough.
  fit-Given : (ss n : ℕ) → Free ss n × (leb size n ≡ true) → Given f size in_use (some (ss, f))
  fit-Given ss n (((s, at, same), free_now), fits) = record {
    ss = ss;
    after = f;
    runs = refl;
    slot = s;
    there = at;
    large = ground arith;
    unused = ground arith;
    kept = λ i t ne here. here;
    grows = λ t here. let e : s ≡ t = ground arith in subst (λ z. z.size ≤ s.size) e (omega arith);
    listed = listed;
  }

  abbrev enlarged : ℕ → StackSlotData → StackSlots
  enlarged ss s = record f { slots = set f.slots ss (record s { size = size }) }

  -- A slot made larger.
  larger-Given :
      (ss n : ℕ) (s : StackSlotData)
      → get_elem? f.slots ss ≡ some s
      → s.size ≡ n
      → not (in_list in_use ss) ≡ true
      → leb size n ≡ false
      → Given f size in_use (some (ss, enlarged ss s))
  larger-Given ss n s at same free_now out =
      let lt = get_elem?_lt f.slots ss at in
      record {
        ss = ss;
        after = enlarged ss s;
        runs = refl;
        slot = record s { size = size };
        there = ground (arith, get_elem?-set f.slots ss ss (record s { size = size }) lt);
        large = omega arith;
        unused = ground arith;
        kept =
            λ i t ne here. ground (arith, get_elem?-set f.slots ss i (record s { size = size }) lt);
        grows =
            λ t here. let e : s ≡ t = ground arith in subst (λ z. z.size ≤ size) e (ground arith);
        listed = λ i e at'.
            omega (arith, listed i e at', length-set f.slots ss (record s { size = size }));
      }

  abbrev fresh : StackSlotData
  fresh = record { kind = StackSlotKind.emergency_slot; size = size; offset = none }

  abbrev extended : StackSlots
  extended = record f {
    slots = f.slots ++ (fresh ∷ []);
    emergency = f.emergency ++ (length f.slots ∷ []);
  }

  -- A new slot.
  fresh-Given : Given f size in_use (some (length f.slots, extended))
  fresh-Given = record {
    ss = length f.slots;
    after = extended;
    runs = refl;
    slot = fresh;
    there = ground (arith, get_elem?-append f.slots (fresh ∷ []) (length f.slots));
    large = omega arith;
    unused = elim (Bool-cases (in_list in_use (length f.slots))) [
      | inl used ↦ absurd (omega (arith, existing (length f.slots) used))
      | inr unused ↦ unused
    ];
    kept = λ i t ne here.
        ground (arith, get_elem?-append f.slots (fresh ∷ []) i, get_elem?_lt f.slots i here);
    grows = λ t here. absurd (omega (arith, get_elem?_lt f.slots (length f.slots) here));
    listed = λ i e at. ground (
      arith,
      get_elem?-append f.emergency (length f.slots ∷ []) i,
      listed i e,
      length-append f.slots (fresh ∷ []),
    );
  }

  choose_emergency-Given :
      (free : List (ℕ × ℕ)) → All Free free → Given f size in_use (choose_emergency f size free)
  unfolding choose_emergency next_key
  choose_emergency-Given free all =
      let fits = λ (p : ℕ × ℕ). leb size p.1 in
      elim (Option-cases (min_by_size (filter fits free))) [
        | inl nothing ↦
            let out = All-out Free fits free all (min_by_size-none (filter fits free) nothing) in
            elim (Option-cases (max_by_size free)) [
              | inl empty ↦ rw (choose_emergency, nothing, empty) fresh-Given
              | inr ((ss, n), m) ↦
                  let (((s, at, same), free_now), small) =
                    max_by_size-All (λ ss n. Free ss n × (leb size n ≡ false)) free ss n out m in
                  rw (choose_emergency, nothing, m, at) (larger-Given ss n s at same free_now small)
            ]
        | inr ((ss, n), m) ↦
            rw (choose_emergency, m)
              (fit-Given ss n (
                min_by_size-All (λ ss n. Free ss n × (leb size n ≡ true)) (filter fits free) ss n
                  (filter-All Free fits free all) m))
      ]

-- `get_emergency_slot` ends without a panic if all emergency slots and all slots in use exist. The slot given
-- is not in use and has at least the spill size of the type; it does not shrink if it was there, the other
-- slots stay, and all emergency slots exist again.
pub get_emergency_slot-Given :
    (f : StackSlots) (t : ValueType) (in_use : List (Option ℕ))
    → Listed f
    → ((ss : ℕ) → in_list in_use ss ≡ true → ss < length f.slots)
    → Given f (spill_size t) in_use (get_emergency_slot f t in_use)
unfolding get_emergency_slot
get_emergency_slot-Given f t in_use listed existing =
    let (l, e, all) = sized-All f.slots f.emergency listed in
    rw (get_emergency_slot, e)
      (choose_emergency-Given f (spill_size t) in_use listed existing
        (filter (λ p. not (in_list in_use p.0)) l)
        (filter-All (Registered f.slots) (λ p. not (in_list in_use p.0)) l all))
