-- ===== src/Clock.antt =====
-- time.Now().UnixMilli() and uuid.New().String(), as calls of the environment.
use dahlia.Common.{ℕ, Text}
use dahlia.Runtime.{Go, call, read_clock, made_uuid}

module _ {S : Type 0} where
  unfoldable pub now : Go S ℕ
  now = call (λ env t. env.now t) read_clock

  unfoldable pub new_uuid : Go S Text
  new_uuid = call (λ env t. env.new_uuid t) made_uuid
