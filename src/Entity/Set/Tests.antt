-- ===== src/Entity/Set/Tests.antt =====
-- Runs of an entity set.
use cretonne.Prelude.{ℕ, ◌≡◌, refl, true, not, ◌||◌, ◌==◌, some}
use cretonne.Prelude.Panic.{◌>>=◌}
use cretonne.Entity.Set.{EntitySet, new, insert, resize, contains}
use cretonne.Entity.Set.Laws.{IsValid, member, new-IsValid, insert-member}

two_members : (insert new 2 >>= λ (_, s). insert s 9 >>= λ (_, t). contains t 2) ≡ some true
unfolding new insert contains
two_members = refl

-- A shorter length keeps the bits beyond it, and a longer one later shows them: 5 was not inserted after the
-- set was cut to one entry.
stale_member :
    (insert new 5 >>= λ (_, s). insert (resize s 1) 7 >>= λ (_, t). contains t 5) ≡ some true
unfolding new insert resize contains
stale_member = refl

insert-member_example :
    (s' : EntitySet) × (insert new 9 ≡ some (not (member new 9), s'))
    × ((j : ℕ) → member s' j ≡ (j == 9 || member new j))
    × IsValid s'
insert-member_example = insert-member new 9 new-IsValid
