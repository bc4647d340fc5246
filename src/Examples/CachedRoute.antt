-- ===== src/Examples/CachedRoute.antt =====
-- Two candidates, of which the second has a cached value: internal/audit/cache_route.go.
use deepseek_moderation_api.Prelude.{
  ℕ, ◌<◌, ◌≤◌, ◌≡◌, refl, true, [], ◌∷◌, Option, none, some, String, str_eq, arith, ok,
  if◌then◌else◌,
}
use deepseek_moderation_api.CachedRoute.{
  first_level, drawn_index, take_at, miss, hit, CacheAnswers, look_up, cached_route,
}
use deepseek_moderation_api.CachedRoute.Found.{IsAnswer, cached_route-IsAnswer}
use deepseek_moderation_api.CachedRoute.Draws.{first_level-draws}
use deepseek_moderation_api.Examples.Router.{primary, backup, candidates}

abbrev answers : CacheAnswers ℕ
answers = record {
  cache_key = λ c. c.channel.id;
  active = λ c. ok (some true);
  reserve = λ c. ok tt;
  recorded = λ c. true;
  draw = λ remaining weight. 0;
}

abbrev values : String → Option ℕ
values key = if str_eq key "backup" then some 90 else none

found : cached_route answers (ok values) candidates ≡ ok (hit backup 90)
unfolding cached_route look_up first_level drawn_index take_at
found = refl

-- The channel was changed since, so its value is not used.
changed : cached_route (record answers { active = λ c. ok none }) (ok values) candidates ≡ ok miss
unfolding cached_route look_up first_level drawn_index take_at
changed = refl

cached_route-IsAnswer_example :
    IsAnswer answers
      (λ c. c.binding.weight ≤ 3)
      values
      candidates
      (cached_route answers (ok values) candidates)
cached_route-IsAnswer_example =
    cached_route-IsAnswer answers (λ c. c.binding.weight ≤ 3) values candidates
      (omega arith, (omega arith, tt))

first_level-draws_example : 0 < (first_level 101 0 candidates).1
first_level-draws_example =
    first_level-draws primary (backup ∷ [])
      ((omega arith, omega arith), ((omega arith, omega arith), tt))
