-- ===== src/Entity/Set/Laws.antt =====
-- An `EntitySet` against the set of its members.
use Prim.Native.Nat.{bit_or}
use native.Mathlib.Decide.{dec_lt, dec_le, ℕ_discrete}
use native.Mathlib.Nat.{one-le-pow}
use cretonne.Prelude.{
  ℕ, zero, suc, ◌+◌, ◌-◌, ◌/◌, ◌%◌, ◌^◌, ◌≤◌, ◌<◌, ◌≡◌, refl, ap, ◌∙◌, Bool, true, false, not, ◌&&◌,
  ◌||◌, ltb, leb, ◌==◌, some, List, [], ◌∷◌, ◌++◌, length, get_elem?, get_or, set, take, replicate,
  length-append, length-replicate, length-set, if◌then◌else◌, arith,
}
use cretonne.Prelude.Digits.{digit, digit-zero, digit_lt, bit_and-pow, digit-bit_or}
use cretonne.Prelude.Panic.{write}
use cretonne.Prelude.Swap.{get_or-set, get_elem?_within, get_elem?_lt}
use cretonne.Entity.Map.{get_or-get, vec_resize}
use cretonne.Entity.Set.{EntitySet, new, contains, resize, insert}

-- The bit of an element.
abbrev pub bit : List ℕ → ℕ → ℕ
bit elems k = digit (k % 8) (get_or elems (k / 8) 0)

abbrev pub member : EntitySet → ℕ → Bool
member s k = ltb k s.set_len && bit s.elems k == 1

-- There is a byte for every eight elements, and bits beyond the length are clear.
pub record IsValid (s : EntitySet) : Type 0 where
  pub sized : length s.elems ≡ (s.set_len + 7) / 8
  pub clear : (k : ℕ) → s.set_len ≤ k → bit s.elems k ≡ 0

pub new-IsValid : IsValid new
unfolding new
new-IsValid = record { sized = refl; clear = λ k _. digit-zero (k % 8) }

get_or-replicate : (n i d : ℕ) → get_or (replicate n d) i d ≡ d
get_or-replicate zero i d = refl
get_or-replicate (suc n) zero d = refl
get_or-replicate (suc n) (suc i) d = get_or-replicate n i d

get_or-grown : (xs : List ℕ) (n i d : ℕ) → get_or (xs ++ replicate n d) i d ≡ get_or xs i d
get_or-grown [] n i d = get_or-replicate n i d
get_or-grown (x ∷ xs) n zero d = refl
get_or-grown (x ∷ xs) n (suc i) d = get_or-grown xs n i d

take_all : (n : ℕ) (xs : List ℕ) → length xs ≤ n → take n xs ≡ xs
take_all zero [] le = refl
take_all zero (x ∷ xs) le = absurd (omega arith)
take_all (suc n) [] le = refl
take_all (suc n) (x ∷ xs) le = ap (λ ys. x ∷ ys) (take_all n xs (omega arith))

vec_resize_grown :
    (xs : List ℕ) (n : ℕ)
    → length xs ≤ n
    → (length (vec_resize xs n 0) ≡ n) × ((i : ℕ) → get_or (vec_resize xs n 0) i 0 ≡ get_or xs i 0)
unfolding vec_resize
vec_resize_grown xs n le = elim (dec_le n (length xs)) [
  | yes full ↦
      let test : leb n (length xs) ≡ true = ground arith in
      let same = take_all n xs le in rw (vec_resize, test, same) (omega arith, λ i. refl)
  | no short ↦
      let test : leb n (length xs) ≡ false = ground arith in
      let none_set : ℕ = 0 in
      rw (vec_resize, test)
        (
          omega (
            arith,
            length-append xs (replicate (n - length xs) none_set),
            length-replicate (n - length xs) none_set,
          ),
          λ i. get_or-grown xs (n - length xs) i 0,
        )
]

-- `contains` of a valid set is membership.
pub contains_lem : (s : EntitySet) (k : ℕ) → IsValid s → contains s k ≡ some (member s k)
unfolding contains
contains_lem s k h = elim (dec_lt k s.set_len) [
  | yes lt ↦
      let sized = h.sized in
      let (byte, at) = get_elem?_within s.elems (k / 8) (omega arith) in
      let test : ltb k s.set_len ≡ true = ground arith in
      let same : get_or s.elems (k / 8) 0 ≡ byte = get_or-get s.elems (k / 8) 0 ∙ rw at refl in
      let pos = one-le-pow (k % 8) 2 in
      let masked = bit_and-pow (k % 8) byte in
      let small = digit_lt (k % 8) byte in rw (test, at, same, masked) (ground arith)
  | no ge ↦ let test : ltb k s.set_len ≡ false = ground arith in rw (test) refl
]

-- The set with room for an element.
abbrev grown : EntitySet → ℕ → EntitySet
grown s k = if leb s.set_len k then resize s (k + 1) else s

record Grown (s : EntitySet) (k : ℕ) (t : EntitySet) : Type 0 where
  valid : IsValid t
  room : k < t.set_len
  same : (j : ℕ) → member t j ≡ member s j

grown-Grown : (s : EntitySet) (k : ℕ) → IsValid s → Grown s k (grown s k)
unfolding resize
grown-Grown s k h = elim (dec_le s.set_len k) [
  | yes over ↦
      let test : leb s.set_len k ≡ true = ground arith in
      let sized = h.sized in
      let (length_ok, bits) = vec_resize_grown s.elems ((k + 1 + 7) / 8) (omega arith) in
      let kept : (j : ℕ) → bit (vec_resize s.elems ((k + 1 + 7) / 8) 0) j ≡ bit s.elems j =
        λ j. ap (digit (j % 8)) (bits (j / 8)) in
      rw (grown, test)
        record {
          valid = record { sized = length_ok; clear = λ j le. kept j ∙ h.clear j (omega arith) };
          room = omega arith;
          same = λ j. rw (kept j) (ground (arith, h.clear j));
        }
  | no within ↦
      let test : leb s.set_len k ≡ false = ground arith in
      rw (grown, test) record { valid = h; room = ground arith; same = λ j. refl }
]

abbrev with_bit : EntitySet → ℕ → ℕ → EntitySet
with_bit t k byte = record t { elems = set t.elems (k / 8) (bit_or byte (2 ^ (k % 8))) }

bit-with_bit :
    (elems : List ℕ) (k byte : ℕ)
    → get_elem? elems (k / 8) ≡ some byte
    → (j : ℕ)
    → bit (set elems (k / 8) (bit_or byte (2 ^ (k % 8)))) j ≡ (if j == k then 1 else bit elems j)
bit-with_bit elems k byte at j =
    let lt = get_elem?_lt elems (k / 8) at in
    let here : get_or elems (k / 8) 0 ≡ byte = get_or-get elems (k / 8) 0 ∙ rw at refl in
    ap (digit (j % 8)) (get_or-set elems (k / 8) (j / 8) (bit_or byte (2 ^ (k % 8))) 0 lt)
    ∙ elim (ℕ_discrete (j / 8) (k / 8)) [
      | yes e ↦
          let test : (j / 8 == k / 8) ≡ true = ground arith in
          let same : get_or elems (j / 8) 0 ≡ byte = ap (λ z. get_or elems z 0) e ∙ here in
          rw (test, same) (digit-bit_or (j % 8) (k % 8) byte ∙ ground arith)
      | no ne ↦
          let test : (j / 8 == k / 8) ≡ false = ground arith in
          let other : (j == k) ≡ false = ground arith in rw (test, other) refl
    ]

-- `insert` into a valid set ends without a panic. The answer is whether the element was not a member, the
-- members after are those before and the element, and the set is valid.
pub insert-member :
    (s : EntitySet) (k : ℕ)
    → IsValid s
    → (s' : EntitySet) × (insert s k ≡ some (not (member s k), s'))
      × ((j : ℕ) → member s' j ≡ (j == k || member s j))
      × IsValid s'
unfolding insert write
insert-member s k h =
    let t = grown s k in
    let g = grown-Grown s k h in
    let v = g.valid in
    let sized = v.sized in
    let room = g.room in
    let (byte, at) = get_elem?_within t.elems (k / 8) (omega arith) in
    let lt = get_elem?_lt t.elems (k / 8) at in
    let test : ltb (k / 8) (length t.elems) ≡ true = ground arith in
    let bits = bit-with_bit t.elems k byte at in
    (
      with_bit t k byte,
      rw (contains_lem t k v, at, test, g.same k) refl,
      (λ j. rw (bits j) (ground (arith, g.same j))),
      record {
        sized = length-set t.elems (k / 8) (bit_or byte (2 ^ (k % 8))) ∙ sized;
        clear = λ j le. ground (arith, bits j, v.clear j);
      },
    )
