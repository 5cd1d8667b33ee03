-- ===== src/Examples/Counters.antt =====
-- Calls that count snapshots.
use arx_runa.Prelude.{◌≡◌, refl, some, [], ◌∷◌, codes, ◌==◌, if◌then◌else◌, arith}
use arx_runa.World.{Env, World, done, failed}
use arx_runa.Storage.Validation.{parse_u64, strip_plus, nonempty_digits, parse_digits}
use arx_runa.Manifest.Meta.Counting.{
  HasCounter, AreIncreasing, calls_of, calls-AreIncreasing, calls_count_up,
}
use arx_runa.Examples.Toy.{env, world, calm}

abbrev counting : World
counting = record world { manifest = record world.manifest { meta = λ key. some (codes "41") } }

counting-HasCounter : HasCounter counting.manifest 41
unfolding parse_u64 strip_plus nonempty_digits parse_digits
counting-HasCounter = (codes "41", refl, refl)

-- The fifth call of the database fails.
abbrev unlucky : Env
unlucky = record env { fate = λ n. if n == 5 then failed else done }

calls-AreIncreasing_example : AreIncreasing 41 (calls_of unlucky 3 counting).0
calls-AreIncreasing_example = calls-AreIncreasing unlucky 3 counting 41 counting-HasCounter

calls_count_up_example : (calls_of env 3 counting).0 ≡ 42 ∷ 43 ∷ 44 ∷ []
calls_count_up_example = calls_count_up env calm 3 counting 41 counting-HasCounter (omega arith)
