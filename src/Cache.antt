-- ===== src/Cache.antt =====
-- internal/cache/redis/redis_cache.go. The Eval call runs luaAtomicTransfer of
-- internal/service/scheduler.go; a value that is set is a text. GET answers redis.Nil with `none`.
use dahlia.Common.{ℕ, ℤ, Option, none, some, List, [], ◌∷◌, Text}
use dahlia.Errors.{errorf}
use dahlia.Domain.{Value}
use dahlia.Runtime.{
  measured, transferred, pushed, ranged, removed, redis_set, redis_got, redis_deleted, Go, pure,
  raise, call, lift, of_option, wrapping, ◌>>=◌,
}

module _ {S : Type 0} where
  unfoldable pub llen : Text → Go S ℕ
  llen key = do
    outcome ← call (λ env t. env.llen t key) (λ _. measured key)
    wrapping "redis llen failed" (lift outcome)

  unfoldable pub rpush : Text → Text → Go S (Unit {0})
  rpush key value = do
    outcome ← call (λ env t. env.rpush t key value) (pushed key value)
    wrapping "redis rpush failed" (of_option outcome)

  unfoldable pub lrange : Text → Go S (List Text)
  lrange key = do
    outcome ← call (λ env t. env.lrange t key) (λ _. ranged key)
    wrapping "redis lrange failed" (lift outcome)

  -- LRem with count 1
  unfoldable pub lrem : Text → Text → Go S (Unit {0})
  lrem key value = do
    outcome ← call (λ env t. env.lrem t key value) (removed key value)
    wrapping "redis lrem failed" (of_option outcome)

  -- Eval of luaAtomicTransfer
  unfoldable pub transfer : Text → Text → Go S (Option (List Value))
  transfer bucket_key temp_key = do
    outcome ←
        call (λ env t. env.transfer t bucket_key temp_key) (λ _. transferred bucket_key temp_key)
    wrapping "redis eval failed" (lift outcome)

  unfoldable pub set : Text → Text → ℤ → Go S (Unit {0})
  set key value ttl = do
    outcome ← call (λ env t. env.set t key value ttl) (redis_set key value ttl)
    wrapping "redis set failed" (of_option outcome)

  found_value : Text → Option Text → Go S Text
  found_value key none = raise (errorf "key not found: %s" (key ∷ []))
  found_value key (some value) = pure value

  unfoldable pub get : Text → Go S Text
  unfolding found_value
  get key = do
    outcome ← call (λ env t. env.get t key) (λ _. redis_got key)
    value ← wrapping "redis get failed" (lift outcome)
    found_value key value

  unfoldable pub delete : Text → Go S (Unit {0})
  delete key = do
    outcome ← call (λ env t. env.del t key) (redis_deleted key)
    wrapping "redis delete failed" (of_option outcome)
