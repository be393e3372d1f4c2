-- ===== src/ConstantHash/Tests.antt =====
-- Runs of the hash function and of probes on a table of four entries.
use cretonne.Prelude.{ℕ, none, some, [], ◌∷◌, ◌==◌, ◌≡◌, refl, get_elem?, arith}
use cretonne.Prelude.Panic.{◌>>=◌}
use cretonne.ConstantHash.{Table, Probe, probe, simple_hash}
use cretonne.ConstantHash.Laws.{Probed, probe-Probed}

hello_hash : simple_hash (72 ∷ 101 ∷ 108 ∷ 108 ∷ 111 ∷ []) ≡ 0x2fa70c01
unfolding simple_hash
hello_hash = refl

world_hash : simple_hash (119 ∷ 111 ∷ 114 ∷ 108 ∷ 100 ∷ []) ≡ 0x5b0c31d5
unfolding simple_hash
world_hash = refl

-- Two keys that meet at entry 1.
abbrev two_keys : Table ℕ
two_keys = record {
  entries = 4;
  key = λ at. get_elem? (none ∷ some 10 ∷ some 20 ∷ none ∷ []) at >>= λ k. k;
}

second_key : probe (λ a b. a == b) two_keys 20 0x5b0c31d5 ≡ some (Probe.found 2)
unfolding probe
second_key = refl

missing_key : probe (λ a b. a == b) two_keys 30 1 ≡ some (Probe.vacant 0)
unfolding probe
missing_key = refl

probe-Probed_example : Probed (λ a b. a == b) two_keys 30 9 (probe (λ a b. a == b) two_keys 30 9)
probe-Probed_example =
    probe-Probed (λ a b. a == b) two_keys 30 2 refl (omega arith) 3 (omega arith) refl 9
